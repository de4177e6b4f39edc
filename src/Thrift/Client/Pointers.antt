-- ===== src/Thrift/Client/Pointers.antt =====
-- The protocols that BenchClient and BenchConcurrentClient of thrift-bench/gen-cpp/Bench.h hold: the
-- constructors, setProtocol, and the two getters. A shared pointer, and what its get() yields, is
-- the protocol that it points to, or null.
use ros2_pubsub_benchmark.Prelude.{◌≡◌, refl, Option}

pub record BenchClient (P : Type 0) : Type 0 where
  pub piprot : Option P
  pub poprot : Option P
  pub iprot : Option P
  pub oprot : Option P

pub record BenchConcurrentClient (P Sync : Type 0) : Type 0 where
  pub piprot : Option P
  pub poprot : Option P
  pub iprot : Option P
  pub oprot : Option P
  pub sync : Sync

module _ {P : Type 0} where
  -- setProtocol assigns to every member.
  unfoldable pub set_protocols : (iprot oprot : Option P) → BenchClient P
  set_protocols iprot oprot = record {
    piprot = iprot;
    poprot = oprot;
    iprot = iprot;
    oprot = oprot;
  }

  unfoldable pub set_protocol : Option P → BenchClient P
  unfolding set_protocols
  set_protocol prot = set_protocols prot prot

  -- The two constructors.
  unfoldable pub new_client : Option P → BenchClient P
  unfolding set_protocol
  new_client prot = set_protocol prot

  unfoldable pub new_client_between : (iprot oprot : Option P) → BenchClient P
  unfolding set_protocols
  new_client_between iprot oprot = set_protocols iprot oprot

  unfoldable pub get_input_protocol : BenchClient P → Option P
  get_input_protocol this = this.piprot

  unfoldable pub get_output_protocol : BenchClient P → Option P
  get_output_protocol this = this.poprot

module _ {P Sync : Type 0} where
  unfoldable pub set_shared_protocols :
      (iprot oprot : Option P) → Sync → BenchConcurrentClient P Sync
  set_shared_protocols iprot oprot sync = record {
    piprot = iprot;
    poprot = oprot;
    iprot = iprot;
    oprot = oprot;
    sync = sync;
  }

  unfoldable pub set_shared_protocol : Option P → Sync → BenchConcurrentClient P Sync
  unfolding set_shared_protocols
  set_shared_protocol prot sync = set_shared_protocols prot prot sync

  unfoldable pub new_concurrent_client : Option P → Sync → BenchConcurrentClient P Sync
  unfolding set_shared_protocol
  new_concurrent_client prot sync = set_shared_protocol prot sync

  unfoldable pub new_concurrent_client_between :
      (iprot oprot : Option P) → Sync → BenchConcurrentClient P Sync
  unfolding set_shared_protocols
  new_concurrent_client_between iprot oprot sync = set_shared_protocols iprot oprot sync

  unfoldable pub get_shared_input_protocol : BenchConcurrentClient P Sync → Option P
  get_shared_input_protocol this = this.piprot

  unfoldable pub get_shared_output_protocol : BenchConcurrentClient P Sync → Option P
  get_shared_output_protocol this = this.poprot

-- A client of one protocol reads and writes through it, and its getters give it back.
new_client-one_protocol :
    {P Sync : Type 0} (prot : Option P) (sync : Sync)
    → let c = new_client prot in
      let d = new_concurrent_client prot sync in
      (c.iprot ≡ prot)
      × (c.oprot ≡ prot)
      × (d.iprot ≡ prot)
      × (d.oprot ≡ prot)
      × (get_input_protocol c ≡ get_output_protocol c)
      × (get_shared_input_protocol d ≡ get_shared_output_protocol d)
unfolding new_client new_concurrent_client get_input_protocol get_output_protocol
    get_shared_input_protocol get_shared_output_protocol
new_client-one_protocol prot sync = (refl, refl, refl, refl, refl, refl)
