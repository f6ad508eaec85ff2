-- ===== src/Engine/Exec/Renames/Restored.antt =====
-- exec.rs: the services are put back one by one, in any order, into the map they came from.
use serpentine.Prelude.{ℕ, ◌≡◌, refl, sym, ap, subst, [], ◌∷◌, arith}
use serpentine.Prelude.Text.{Text}
use serpentine.Internal.Network.{Order, less, same, greater, and_then}
use serpentine.Engine.Container.{Services, btree_end, btree_entry, ServiceState}
use serpentine.Engine.Container.Config.{cmp_char, cmp_str, insert_service}
use serpentine.Engine.Container.Layout.Invariant.{Removes, here, there}
use serpentine.Engine.Exec.Stopping.{child_name}
use serpentine.Engine.Exec.Renames.{
  renamed_service, renamed_all, AllAbove, AreOrdered, IsOrderedService,
}

abbrev flipped : Order → Order
flipped less = greater
flipped same = same
flipped greater = less

cmp_char-flipped : (a b : ℕ) → cmp_char b a ≡ flipped (cmp_char a b)
cmp_char-flipped a b = ground arith

and_then-flipped : (o p : Order) → and_then (flipped o) (flipped p) ≡ flipped (and_then o p)
and_then-flipped less p = refl
and_then-flipped same p = refl
and_then-flipped greater p = refl

cmp_str-flipped : (s t : Text) → cmp_str t s ≡ flipped (cmp_str s t)
unfolding cmp_str
cmp_str-flipped [] [] = refl
cmp_str-flipped [] (b ∷ bs) = refl
cmp_str-flipped (a ∷ cs) [] = refl
cmp_str-flipped (a ∷ cs) (b ∷ bs) =
    rw (cmp_char-flipped a b, cmp_str-flipped cs bs)
      (and_then-flipped (cmp_char a b) (cmp_str cs bs))

above→greater : (g h : Text) → cmp_str g h ≡ less → cmp_str h g ≡ greater
above→greater g h e = rw (cmp_str-flipped g h, e) refl

insert_first :
    (key : Text) (value : ServiceState) (services : Services)
    → AllAbove key services
    → insert_service services key value ≡ btree_entry key value services
unfolding insert_service
insert_first key value btree_end h = refl
insert_first key value (btree_entry k v services) (e, h) = rw (e, insert_service) refl

insert_later :
    (key k : Text) (value v : ServiceState) (services : Services)
    → cmp_str key k ≡ greater
    → insert_service (btree_entry k v services) key value
      ≡ btree_entry k v (insert_service services key value)
unfolding insert_service
insert_later key k value v services e = rw (e, insert_service) refl

-- The services of a map that are put back already, renamed, and those that are still to come.
pub data Parts (name : Text) : Services → Services → Services → Type 0 where
  empty : Parts name btree_end btree_end btree_end
  back :
      {k : Text} {s : ServiceState} {m a r : Services}
      → Parts name m a r
      → Parts name (btree_entry k s m) (btree_entry k (renamed_service (child_name name k) s) a) r
  ahead :
      {k : Text} {s : ServiceState} {m a r : Services}
      → Parts name m a r
      → Parts name (btree_entry k s m) a (btree_entry k s r)

module _ (name : Text) where
  pub Parts-start : (m : Services) → Parts name m btree_end m
  Parts-start btree_end = empty
  Parts-start (btree_entry k s m) = ahead (Parts-start m)

  pub Parts-end : {m a : Services} → Parts name m a btree_end → a ≡ renamed_all name m
  Parts-end empty = refl
  Parts-end (back {k} {s} p) =
      ap (btree_entry k (renamed_service (child_name name k) s)) (Parts-end p)

  Parts-above : (g : Text) {m a r : Services} → Parts name m a r → AllAbove g m → AllAbove g a
  Parts-above g empty h = tt
  Parts-above g (back p) (e, h) = (e, Parts-above g p h)
  Parts-above g (ahead p) (e, h) = Parts-above g p h

  Parts-less :
      (g : Text) {h : Text} {s : ServiceState} {m a r r' : Services}
      → Parts name m a r
      → AllAbove g m
      → Removes h s r r'
      → cmp_str g h ≡ less
  Parts-less g empty above q = elim q [ ]
  Parts-less g (back p) (e, above) q = Parts-less g p above q
  Parts-less g (ahead p) (e, above) here = e
  Parts-less g (ahead p) (e, above) (there q) = Parts-less g p above q

  pub Parts-IsOrdered :
      {h : Text} {s : ServiceState} {m a r r' : Services}
      → Parts name m a r
      → AreOrdered m
      → Removes h s r r'
      → IsOrderedService s
  Parts-IsOrdered empty o q = elim q [ ]
  Parts-IsOrdered (back p) (_, (_, o)) q = Parts-IsOrdered p o q
  Parts-IsOrdered (ahead p) (_, (o, _)) here = o
  Parts-IsOrdered (ahead p) (_, (_, o)) (there q) = Parts-IsOrdered p o q

  Parts-same : {m a b r : Services} → b ≡ a → Parts name m a r → Parts name m b r
  Parts-same {m} {r = r} e p = subst (λ c. Parts name m c r) (sym e) p

  -- The next one is put back.
  pub Parts-insert :
      {h : Text} {s : ServiceState} {m a r r' : Services}
      → Parts name m a r
      → AreOrdered m
      → Removes h s r r'
      → Parts name m (insert_service a h (renamed_service (child_name name h) s)) r'
  Parts-insert empty o q = elim q [ ]
  Parts-insert {h} {s} (back {k} {s = t} {a = a} p) (above, (_, o)) q =
      Parts-same
        (insert_later h k (renamed_service (child_name name h) s)
          (renamed_service (child_name name k) t) a (above→greater k h (Parts-less k p above q)))
        (back (Parts-insert p o q))
  Parts-insert (ahead {k} {s} {a = a} p) (above, (_, o)) here =
      Parts-same (insert_first k (renamed_service (child_name name k) s) a (Parts-above k p above))
        (back p)
  Parts-insert (ahead p) (_, (_, o)) (there q) = ahead (Parts-insert p o q)
