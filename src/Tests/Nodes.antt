-- ===== src/Tests/Nodes.antt =====
-- Calls of nodes with functions that echo what they are given.
use serpentine.Prelude.{
  ◌≡◌, ◌≢◌, refl, List, [], ◌∷◌, some, none, map, true, Bool, false, get_elem?,
}
use serpentine.Prelude.Text.{Text, codes}
use serpentine.Prelude.Outcome.{Outcome, ok, err}
use serpentine.Engine.Container.{ContainerState, container_state, container_config, btree_end}
use serpentine.Engine.DataModel.{DataType, Data, type_, cacheable, is_cacheable}
use serpentine.Engine.DataModel.Cache.{CachedAs, cacheable-CachedAs}
use serpentine.Engine.Nodes.{
  RawType, Raw, Raws, Wrap, NodeImpl, wrap, execute, return_type, prelude, should_be_cached,
  from_data, accepts, into_data, raw_kind,
}
use serpentine.Engine.Nodes.Typing.{
  Behaves, Keeps, promised, execute-Behaves, from_data-accepts, is_some, into_data-from_data,
}
use serpentine.Engine.Nodes.Caching.{prelude-cacheable}

-- Passes a container through, and answers a text.
echo :
    (rs : List RawType) (result : RawType) (b : Bool)
    → Raws Unit rs
    → Outcome Text (Raw Unit result)
echo (RawType.container_like ∷ rs) RawType.container_like true (v, vs) = ok v
echo rs RawType.string false vs = ok (codes "done")
echo _ _ _ vs = err (codes "no")

echo_all : (w : Wrap) → Raws Unit w.parameters → Outcome Text (Raw Unit w.result)
echo_all w vs = echo w.parameters w.result w.passthrough_return vs

echo-keeps :
    (rs : List RawType) (result : RawType) (b : Bool) (vs : Raws Unit rs) (v : Raw Unit result)
    → echo rs result b vs ≡ ok v
    → type_ (into_data result v) ≡ promised Unit rs vs b (raw_kind result)
unfolding echo type_ into_data raw_kind
echo-keeps (RawType.container_like ∷ rs) RawType.container_like true (u, vs) v e = cc
echo-keeps [] RawType.string false vs v e = refl
echo-keeps (r ∷ rs) RawType.string false vs v e = refl
echo-keeps _ _ _ vs v e = cc

echo_all-Keeps : Keeps echo_all
unfolding echo echo_all
echo_all-Keeps w vs v e = echo-keeps w.parameters w.result w.passthrough_return vs v e

abbrev small : ContainerState
small = container_state [] (container_config [] [] none btree_end)

abbrev small_data : Data Unit
small_data = Data.container small

abbrev exec_inputs : List (Data Unit)
exec_inputs = small_data ∷ Data.string (codes "make") ∷ []

-- `Exec`
abbrev exec_node : NodeImpl Unit
exec_node = wrap (record {
  parameters = RawType.container_like ∷ RawType.string ∷ [];
  result = RawType.container_like;
  passthrough_return = true;
  cache = true;
})

exec_types : return_type exec_node (map type_ exec_inputs) ≡ ok DataType.container
unfolding return_type type_ accepts
exec_types = refl

exec_runs : execute echo_all exec_node exec_inputs ≡ ok small_data
unfolding execute from_data echo_all echo into_data
exec_runs = refl

exec_here : get_elem? (prelude {P = Unit}) 3 ≡ some ("Exec", exec_node)
unfolding prelude
exec_here = refl

exec_cached : should_be_cached exec_node ≡ true
unfolding should_be_cached is_cacheable raw_kind
exec_cached = refl

execute-Behaves_example : Behaves DataType.container (execute echo_all exec_node exec_inputs)
execute-Behaves_example = execute-Behaves echo_all echo_all-Keeps exec_node exec_inputs exec_types

prelude-cacheable_example : cacheable small_data ≢ none
prelude-cacheable_example =
    prelude-cacheable echo_all echo_all-Keeps 3 exec_inputs exec_here exec_cached exec_types
      exec_runs

cacheable-CachedAs_example : CachedAs small_data (cacheable small_data)
cacheable-CachedAs_example = cacheable-CachedAs small_data

from_data-accepts_example :
    is_some (from_data RawType.container_like small_data)
    ≡ accepts RawType.container_like (type_ small_data)
from_data-accepts_example = from_data-accepts RawType.container_like small_data

from_data-small : from_data RawType.container small_data ≡ some small
unfolding from_data
from_data-small = refl

into_data-from_data_example : into_data RawType.container small ≡ small_data
into_data-from_data_example = into_data-from_data RawType.container small_data from_data-small
