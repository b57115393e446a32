-- ===== src/Tests/Hosts.antt =====
-- A gate library and semaphores to run an admission with. A gate is open or rooted at a key, every
-- token is a member's, and a semaphore is the number of its free permits.
use tightbeam.Base.{ℕ, zero, suc, ◌≡◌, refl, Bool, true, false, Option, none, some, [], ◌∷◌}
use tightbeam.Base.Bytes.{Text}
use tightbeam.Base.Results.{Result, ok, err}
use tightbeam.Policy.{Origin, rooted, opened, proven}
use tightbeam.Permits.{Semaphores}
use tightbeam.Gate.{Gates, Ruling, missing, not_granted}
use tightbeam.Admit.{Admission, Slots}
use tightbeam.Dispatch.{Host, stream}
use tightbeam.Tests.Frames.{few_details}
use tightbeam.Tests.Rules.{four}

abbrev acquire : ℕ → Option ℕ
acquire zero = none
acquire (suc n) = some n

pub acquire_refuses : (n : ℕ) → acquire n ≡ none → n ≡ 0
acquire_refuses zero h = refl
acquire_refuses (suc n) h = absurd cc

pub acquire_takes : (n m : ℕ) → acquire n ≡ some m → n ≡ suc m
acquire_takes zero m h = absurd cc
acquire_takes (suc n) m h = cc h

abbrev pub counters : Semaphores
counters = record {
  Semaphore = ℕ;
  new = λ n. n;
  available = λ n. n;
  try_acquire = acquire;
  release = λ n. suc n;
  starts = λ n. refl;
  refuses = acquire_refuses;
  takes = acquire_takes;
  returns = λ n. refl;
}

pub record Witness : Type 0 where
  pub origin : Origin
  pub member : Bool
  pub key : ℕ

abbrev rule : Option ℕ → ℕ → Option Text → Result Ruling Witness
rule none key token = ok (record { origin = opened; member = false; key = key })
rule (some root) key none = err missing
rule (some root) key (some token) = ok (record { origin = rooted; member = true; key = key })

abbrev prove_key : Option ℕ → ℕ → Result Ruling Witness
prove_key none key = err not_granted
prove_key (some root) key = ok (record { origin = proven; member = false; key = key })

pub rule_opens :
    (key : ℕ) (w : Witness) → rule none key none ≡ ok w → (w.origin ≡ opened) × (w.member ≡ false)
rule_opens key w h = (cc h, cc h)

pub prove_key_proves :
    (g : Option ℕ) (key : ℕ) (w : Witness) → prove_key g key ≡ ok w → w.origin ≡ proven
prove_key_proves none key w h = absurd cc
prove_key_proves (some root) key w h = cc h

abbrev wants : Option ℕ → Bool
wants none = false
wants (some root) = true

abbrev pub small_gates : Gates
small_gates = record {
  Gate = Option ℕ;
  Admitted = Witness;
  Token = Text;
  Revocations = Unit;
  open_gate = none;
  rooted = λ key revocations. some key;
  wants_capability = wants;
  verify_key = λ node. some node;
  parse = λ text. some text;
  parse_service = λ text. some text;
  is_authority_bound = λ token. false;
  chain = λ token. record { root = 7; revocation_ids = 9 ∷ []; valid_until = ok none };
  admit_witnessed = λ gate key token service. rule gate key token;
  admit_foreign_witnessed = λ gate key slip badge service. err not_granted;
  admit_proven = prove_key;
  revocable_peer = λ w. some w.key;
  is_member = λ w. w.member;
  origin = λ w. w.origin;
  open_wants = refl;
  rooted_wants = λ key revocations. refl;
  opens = λ key service w h. rule_opens key w h;
  proves = prove_key_proves;
}

-- The four routes behind the key 7, the download open to anyone.
abbrev pub small_admission : Admission small_gates counters
small_admission = record {
  gate = some 7;
  public = (b'd' ∷ []) ∷ [];
  public_unsafe = (b'f' ∷ []) ∷ [];
  routes = four;
  knows = λ service key. true;
}

abbrev pub small_host : Host small_gates counters few_details
small_host = record {
  admission = small_admission;
  enabled = λ service. true;
  raw_stream_opens = 16;
  source = λ service node. ok stream;
}

-- The same gate in front of other routes, with everything disabled.
abbrev pub bare_host : Host small_gates counters few_details
bare_host = record {
  admission = record {
    gate = some 7;
    public = [];
    public_unsafe = [];
    routes = [];
    knows = λ service key. false;
  };
  enabled = λ service. false;
  raw_stream_opens = 16;
  source = λ service node. err [];
}

abbrev pub all_free : Slots small_gates counters
all_free = record { pools = record { sessions = 32; streams = 4; proven = 8 }; held = false }
