-- ===== src/Dispatch.antt =====
-- src/tunnel/admit.rs: `serve_request`, from the request's frame to the answer. The file system, a
-- handler's own bytes and the renderings of two errors are parameters. The list of enabled services
-- is asked once, and answers by itself. A stream's end, by its own doing or at a deadline, is not
-- here: see tightbeam.Session.
pub mod Passed
pub mod Faced
pub mod Refused
pub mod Refusals
pub mod Blind
pub mod Returned
pub mod Recalled
pub mod Listed
use tightbeam.Base.{
  ℕ, ◌≡◌, Bool, true, false, not, ◌&&◌, ◌||◌, Option, none, some, List, [], ◌∷◌, ◌==◌, length, any,
  if◌then◌else◌, same_bytes,
}
use tightbeam.Base.Bytes.{Text}
use tightbeam.Base.Results.{Result, ok, err, ◌>>=◌, ◌>>◌, map_err, some_or}
use tightbeam.Policy.{PublicUse, Origin, accepts}
use tightbeam.Cut.{AdmittedChains, record_all, record_proven}
use tightbeam.Router.{Services, Route, Target, handler, raw_stream, Access, get, is_member}
use tightbeam.Protocol.Frames.{Details, Refusal, not_admitted, bad_request, unavailable}
use tightbeam.Protocol.Request.{Request, ReadError, WireVersion, refusal}
use tightbeam.Permits.{Semaphores, give_back}
use tightbeam.Contract.{mint}
use tightbeam.Gate.{Gates, HostRefusal, wire_refusal}
use tightbeam.Admit.{
  SessionPeer, Presented, ProvenStream, AdmittedStream, Admission, Slots, admit, refuse_unless,
}

-- What a source opened for a peer is.
pub data Opened : Type 0 where
  stream seat : Opened

pub data ReadOutcome : Type 0 where
  elapsed : ReadOutcome
  unreadable : ReadError → ReadOutcome
  arrived : Request → ReadOutcome

-- "the host is opening too many raw streams right now; try again shortly"
abbrev pub too_many_opens : Text
too_many_opens =
    b't' ∷ b'h' ∷ b'e' ∷ 0x20 ∷ b'h' ∷ b'o' ∷ b's' ∷ b't' ∷ 0x20 ∷ b'i' ∷ b's' ∷ 0x20 ∷ b'o' ∷ b'p'
    ∷ b'e' ∷ b'n' ∷ b'i' ∷ b'n' ∷ b'g' ∷ 0x20 ∷ b't' ∷ b'o' ∷ b'o' ∷ 0x20 ∷ b'm' ∷ b'a' ∷ b'n'
    ∷ b'y' ∷ 0x20 ∷ b'r' ∷ b'a' ∷ b'w' ∷ 0x20 ∷ b's' ∷ b't' ∷ b'r' ∷ b'e' ∷ b'a' ∷ b'm' ∷ b's'
    ∷ 0x20 ∷ b'r' ∷ b'i' ∷ b'g' ∷ b'h' ∷ b't' ∷ 0x20 ∷ b'n' ∷ b'o' ∷ b'w' ∷ b';' ∷ 0x20 ∷ b't'
    ∷ b'r' ∷ b'y' ∷ 0x20 ∷ b'a' ∷ b'g' ∷ b'a' ∷ b'i' ∷ b'n' ∷ 0x20 ∷ b's' ∷ b'h' ∷ b'o' ∷ b'r'
    ∷ b't' ∷ b'l' ∷ b'y' ∷ []

abbrev sole : Services → Option Text
sole [] = none
sole (r ∷ rs) = some r.name

abbrev pub or_else : {A : Type 0} → Option A → A → A
or_else none a = a
or_else (some b) a = b

-- `resolve_single_service`
unfoldable pub resolve_single_service : (Text → Option Text) → Text → Services → Text
resolve_single_service parse requested services =
    if any (λ r. same_bytes r.name requested) services || not (length services == 1)
    then requested
    else elim (sole services) [ none ↦ requested | some only ↦ or_else (parse only) requested ]

module _ (gates : Gates) (semaphores : Semaphores) (api : Details) where
  open gates use {Admitted}
  open semaphores use {Semaphore, try_acquire}
  open api use {Detail, bounded}

  -- `Serving`
  pub record Host : Type 0 where
    pub admission : Admission gates semaphores
    pub enabled : Text → Bool
    pub raw_stream_opens : Semaphore
    -- What the source of a raw stream's route is opened to, for a peer.
    pub source : Text → ℕ → Result Text Opened

  pub data Ready : Type 0 where
    raw : Opened → Ready
    prepared : PublicUse → Admitted → Ready

  pub data Outcome : Type 0 where
    dropped : Outcome
    refused : Refusal Detail → Outcome
    served : AdmittedStream gates semaphores → Ready → Outcome

  -- `try_acquire`, then the open.
  abbrev pub open_source : Host → ℕ → Text → Result Text Opened
  open_source host node service =
      some_or too_many_opens (try_acquire host.raw_stream_opens) >>= λ left.
      host.source service node

  -- `ErasedHandler::prepare` behind a handler, or the open of a raw stream.
  unfoldable pub make_ready : Host → ℕ → Text → Admitted → Target → Result (Refusal Detail) Ready
  make_ready host node service witness (raw_stream openable) =
      map_err (λ text. unavailable (bounded text)) (open_source host node service) >>= λ source.
      ok (raw source)
  make_ready host node service witness (handler exposure) =
      mint gates Detail exposure witness >>= λ proof. ok (prepared exposure proof.admitted)

  abbrev pub recorded :
      {E : Type 0} → Result E AdmittedChains → Result (Refusal Detail) (Option AdmittedChains)
  recorded (err e) = err not_admitted
  recorded (ok chains) = ok (some chains)

  -- The chains of a stream, into the session's record when a cut is wired.
  unfoldable pub keep_chains :
      AdmittedStream gates semaphores
      → Option AdmittedChains
      → Result (Refusal Detail) (Option AdmittedChains)
  keep_chains admitted none = ok none
  keep_chains admitted (some chains) = elim admitted.proven [
    | none ↦ recorded (record_all admitted.peer admitted.ruled chains)
    | some proven ↦ ok (some (record_proven proven.key chains))
  ]

  -- Everything between the admission and the answer.
  unfoldable pub dispatch :
      Host
      → SessionPeer
      → Text
      → AdmittedStream gates semaphores
      → Option AdmittedChains
      → Result (Refusal Detail) (Ready × Option AdmittedChains)
  unfolding make_ready keep_chains
  dispatch host peer service admitted chains = do
    refuse_unless (host.enabled service) not_admitted
    route ← some_or not_admitted (get host.admission.routes service)
    refuse_unless (not (is_member route.access && not (gates.is_member admitted.witness)))
        not_admitted
    ready ← make_ready host peer.node service admitted.witness route.target
    after ← keep_chains admitted chains
    ok (ready, after)

  pub record Stream : Type 0 where
    pub slots : Slots gates semaphores
    pub chains : Option AdmittedChains
    pub outcome : Outcome

  -- A stream that is refused ends, and its permit returns.
  abbrev pub finish :
      Slots gates semaphores
      → Option AdmittedChains
      → AdmittedStream gates semaphores
      → Result (Refusal Detail) (Ready × Option AdmittedChains)
      → Stream
  finish slots chains admitted (err refusal) = record {
    slots = record slots { pools = give_back semaphores admitted.stream_permit slots.pools };
    chains = chains;
    outcome = refused refusal;
  }
  finish slots chains admitted (ok (ready, after)) = record {
    slots = slots;
    chains = after;
    outcome = served admitted ready;
  }

  abbrev pub answer :
      Host
      → SessionPeer
      → Text
      → Option AdmittedChains
      → Slots gates semaphores
      → Result HostRefusal (AdmittedStream gates semaphores)
      → Stream
  answer host peer service chains slots (err cause) = record {
    slots = slots;
    chains = chains;
    outcome = refused (wire_refusal api cause);
  }
  answer host peer service chains slots (ok admitted) =
      finish slots chains admitted (dispatch host peer service admitted chains)

  abbrev pub resolved : Host → Text → Text
  resolved host service = resolve_single_service (gates.parse_service) service host.admission.routes

  -- A service that has a name: resolved, admitted, dispatched.
  unfoldable pub serve_service :
      ℕ
      → Host
      → SessionPeer
      → Presented
      → Text
      → Option AdmittedChains
      → Slots gates semaphores
      → Stream
  unfolding dispatch
  serve_service now host peer presented service chains slots =
      let resolved = resolve_single_service (gates.parse_service) service host.admission.routes in
      let ruled = admit gates semaphores now host.admission peer presented resolved slots in
      answer host peer resolved chains ruled.0 ruled.1

  module _ (display : WireVersion → Text) (invalid_name : Text → Text) where
    abbrev pub refused_read : Option (Refusal Detail) → Outcome
    refused_read none = dropped
    refused_read (some answered) = refused answered

    unfoldable pub serve_request :
        ℕ
        → Host
        → SessionPeer
        → ReadOutcome
        → Option AdmittedChains
        → Slots gates semaphores
        → Stream
    unfolding serve_service
    serve_request now host peer elapsed chains slots = record {
      slots = slots;
      chains = chains;
      outcome = dropped;
    }
    serve_request now host peer (unreadable e) chains slots = record {
      slots = slots;
      chains = chains;
      outcome = refused_read (refusal api display e);
    }
    serve_request now host peer (arrived request) chains slots =
        elim (gates.parse_service request.service) [
          | none ↦ record {
            slots = slots;
            chains = chains;
            outcome = refused (bad_request (bounded (invalid_name request.service)));
          }
          | some service ↦
              serve_service now host peer
                (record { capability = request.capability; membership = request.membership })
                service chains slots
        ]
