-- ===== src/Tests/Networks.antt =====
-- The network of a container with one service, and the addresses around the end of the counter.
use serpentine.Prelude.{ℕ, ◌⊎◌, inr, ◌≡◌, refl, none, List, [], ◌∷◌, ◌<◌, arith}
use serpentine.Prelude.Text.{codes}
use serpentine.Prelude.Outcome.{ok, Total}
use serpentine.Internal.Network.{
  Topology, topology, no_trees, tree_cons, new, Namespace, Adapter, loopback, internet_bridge,
  bridge,
}
use serpentine.Internal.Network.Sorted.{shape}
use serpentine.Sidecar.Subnets.{pick_subnet}
use serpentine.Sidecar.Subnets.Bounds.{IsInside, pick_subnet-IsInside}
use serpentine.Sidecar.Networks.{Counters, System, answer, realize_topology}
use serpentine.Sidecar.Networks.Shapes.{realize_topology-shape}
use serpentine.Sidecar.Networks.Links.{IsLinked, realize_topology-IsLinked}

abbrev system : System ℕ
system = record {
  uuid = λ time. codes "01234567-89ab-cdef";
  elsewhere = λ time. 0;
  new_namespace = λ time. inr (codes "/run/netns/n");
  apply_network = λ time path adapter. inr tt;
}

abbrev with_service : Topology (Unit {0})
with_service = topology tt (tree_cons (new tt) no_trees)

abbrev adapter_of : Namespace → List Adapter
adapter_of namespace = namespace.adapters

-- The service has the second address of the bridge whose first the container has.
linked :
    realize_topology system with_service none (record { subnets = 0; time = 0 })
    ≡ ok (
      topology
          (record {
            path = codes "/run/netns/n";
            ip = 2130706433;
            adapters =
                record { ifname = codes "lo"; config_json = loopback }
                ∷ record {
                  ifname = codes "eth0";
                  config_json = internet_bridge 3323068420 3323068421;
                }
                ∷ record {
                  ifname = codes "01234567-89ab-c";
                  config_json = bridge (codes "01234567-89ab-c") 3323068416;
                }
                ∷ [];
          })
          (tree_cons
            (new (record {
              path = codes "/run/netns/n";
              ip = 3323068417;
              adapters =
                  record { ifname = codes "lo"; config_json = loopback }
                  ∷ record {
                    ifname = codes "eth0";
                    config_json = internet_bridge 3323068418 3323068419;
                  }
                  ∷ record {
                    ifname = codes "01234567-89ab-c";
                    config_json = bridge (codes "01234567-89ab-c") 3323068417;
                  }
                  ∷ [];
            }))
            no_trees),
      record { subnets = 3; time = 12 },
    )
unfolding realize_topology answer
linked = refl

wrapped :
    pick_subnet 65535 ≡ (record { subnet = 3323199486; ip1 = 3323199486; ip2 = 3323199487 }, 0)
unfolding pick_subnet
wrapped = refl

pick_subnet-IsInside_example :
    IsInside (pick_subnet 3).0
    × (((pick_subnet 3).1 < 65536)
        × (((pick_subnet 3).0.ip2 < (pick_subnet 65535).0.ip1)
            ⊎ ((pick_subnet 65535).0.ip2 < (pick_subnet 3).0.ip1)))
pick_subnet-IsInside_example =
    pick_subnet-IsInside 3 65535 (omega arith) (omega arith) (λ e. absurd (omega arith))

realize_topology-shape_example :
    Total
      (λ _. Unit {0})
      (λ (x : Topology Namespace × Counters). shape x.0 ≡ with_service)
      (realize_topology system with_service none (record { subnets = 65535; time = 0 }))
realize_topology-shape_example =
    realize_topology-shape system with_service (record { subnets = 65535; time = 0 })
      ((tt, tt), ((tt, tt), tt))

realize_topology-IsLinked_example :
    Total
      (λ _. Unit {0})
      (λ (x : Topology Namespace × Counters). IsLinked x.0)
      (realize_topology system with_service none (record { subnets = 65535; time = 0 }))
realize_topology-IsLinked_example =
    realize_topology-IsLinked system with_service (record { subnets = 65535; time = 0 })
      ((tt, tt), ((tt, tt), tt))
