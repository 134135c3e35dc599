-- ===== src/Sim/Faults/Tests.antt =====
-- A run of the fault injector over concrete faults.
use canforge.Base.{ℕ, ◌+◌, ◌%◌, ◌^◌, ◌≡◌, refl, arith, true, false, ltb, some, [], ◌∷◌}
use canforge.Core.CanId
use canforge.Core.Frame.{BasicFrame}
use canforge.Sim.Faults.{Outside, FaultKind, Fault, FaultInjector, concerns, process}
use canforge.Sim.Faults.Accounts.{Accounted, delays, holds, process-Accounted}

-- Numbers for reals, a counter for the generator, and a database of one signal.
abbrev world : Outside ℕ ℕ ℕ ℕ ℕ
world = record {
  draw = λ g. (g, g + 1);
  which = λ n g. (g % (n + 1), g + 1);
  seeded = λ seed. seed;
  less = λ x y. ltb x y;
  find_message = λ d id. some d;
  find_signal = λ m name. some m;
  layout_fits = λ s n. ltb 0 n;
  decode = λ s f. 7;
  encode = λ s x f. f;
  encode_unbounded = λ s x f. f;
}

abbrev engine : CanId.CanId
engine = CanId.make 0x123 false

abbrev late : Fault ℕ
late = record {
  kind = FaultKind.delay_message;
  name = 1 ∷ [];
  node = [];
  id = engine;
  has_id = true;
  signal = [];
  value = 0;
  probability = 0;
  delay_ns = 500;
  active = true;
}

abbrev noisy : Fault ℕ
noisy = record late { kind = FaultKind.bit_flip; name = 2 ∷ []; has_id = false; probability = 9 }

abbrev off : Fault ℕ
off = record late { name = 3 ∷ []; active = false }

abbrev injector : FaultInjector ℕ ℕ
injector = record {
  faults = late ∷ noisy ∷ off ∷ late ∷ [];
  frozen = [];
  rng = 3;
  seed = 3;
  dropped = 0;
  delayed = 0;
  corrupted = 0;
}

abbrev telegram : BasicFrame
telegram = record {
  timestamp_ns = 0;
  id = engine;
  dlc = 2;
  flags = 0;
  bytes = 0xF0 ∷ 0x0F ∷ 0 ∷ 0 ∷ 0 ∷ 0 ∷ 0 ∷ 0 ∷ [];
}

process-Accounted_example :
    Accounted world injector
      ((100 + delays injector.faults [] engine) % 2 ^ 64)
      (holds injector.faults [] engine)
      (process world injector [] telegram 100 0)
process-Accounted_example =
    process-Accounted world injector [] telegram 100 0 (omega arith) (omega arith)

-- Two delays of 500 count, the inactive one does not.
delayed_twice : delays injector.faults [] engine ≡ 1000
unfolding concerns CanId.same_id
delayed_twice = refl

counted_twice : holds injector.faults [] engine ≡ 2
unfolding concerns CanId.same_id
counted_twice = refl
