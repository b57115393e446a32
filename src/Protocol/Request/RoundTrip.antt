-- ===== src/Protocol/Request/RoundTrip.antt =====
-- What a request's bytes are, and that the reader gets the request back from exactly those bytes.
use tightbeam.Base.{ℕ, ◌≡◌, refl, List, ◌++◌, append_assoc, same_bytes}
use tightbeam.Base.Stream.{ok, read_exact-append, and_then-eq-ok}
use tightbeam.Protocol.Frames.{write_str, write_opt}
use tightbeam.Protocol.Frames.Laws.{
  str_bytes, opt_bytes, Fits, FitsOpt, IsUtf8, IsUtf8Opt, Fits-of-write_str, FitsOpt-of-write_opt,
  write_str-ok, write_opt-ok, read_str-append, read_opt-append,
}
use tightbeam.Protocol.Request.{Request, write, read, read_fields, identity, version}

abbrev pub body_bytes : Request → List ℕ
body_bytes r = str_bytes r.service ++ (opt_bytes r.capability ++ opt_bytes r.membership)

abbrev pub request_bytes : Request → List ℕ
request_bytes r = identity ++ (version ++ body_bytes r)

-- Every field fits its length field.
pub record AllFit (r : Request) : Type 0 where
  pub service : Fits r.service
  pub capability : FitsOpt r.capability
  pub membership : FitsOpt r.membership

pub record AllUtf8 (r : Request) : Type 0 where
  pub service : IsUtf8 r.service
  pub capability : IsUtf8Opt r.capability
  pub membership : IsUtf8Opt r.membership

pub write-ok :
    (r : Request) (out : List ℕ) → AllFit r → write r out ≡ ok tt (out ++ request_bytes r)
unfolding write
write-ok r out f = rw (write_str-ok r.service (out ++ identity ++ version) f.service) (
    rw (write_opt-ok r.capability (out ++ identity ++ version ++ str_bytes r.service) f.capability)
      (rw
        (write_opt-ok r.membership
          (out ++ identity ++ version ++ str_bytes r.service ++ opt_bytes r.capability)
          f.membership)
        (simp append_assoc)))

read_fields-append :
    (r : Request) (rest : List ℕ)
    → AllFit r
    → AllUtf8 r
    → read_fields (body_bytes r ++ rest) ≡ ok r rest
unfolding read_fields
read_fields-append r rest f u =
    rw (append_assoc (str_bytes r.service) (opt_bytes r.capability ++ opt_bytes r.membership) rest)
      (rw
        (
          read_str-append r.service ((opt_bytes r.capability ++ opt_bytes r.membership) ++ rest)
              f.service u.service,
          read_fields,
        )
        (rw (append_assoc (opt_bytes r.capability) (opt_bytes r.membership) rest) (
          rw
            (
              read_opt-append r.capability (opt_bytes r.membership ++ rest) f.capability
                  u.capability,
              read_fields,
            )
            (rw (read_opt-append r.membership rest f.membership u.membership, read_fields) refl))))

-- Reading the bytes of a request gives the request back and leaves what follows it untouched.
pub read-request_bytes :
    (r : Request) (rest : List ℕ)
    → AllFit r
    → AllUtf8 r
    → read (request_bytes r ++ rest) ≡ ok r rest
unfolding read same_bytes
read-request_bytes r rest f u =
    rw (read_exact-append 2 identity (version ++ body_bytes r ++ rest) refl, read)
      (rw (read_exact-append 2 version (body_bytes r ++ rest) refl, read)
        (rw (read_fields-append r rest f u, read) refl))

-- Whatever a writer sends for a request, followed by any payload, reads back as that request with
-- exactly the payload left.
pub request_round_trip :
    (r : Request) (out payload : List ℕ)
    → AllUtf8 r
    → AllFit r
    → (bs : List ℕ) × (write r out ≡ ok tt (out ++ bs)) × (read (bs ++ payload) ≡ ok r payload)
request_round_trip r out payload u f =
    (request_bytes r, write-ok r out f, read-request_bytes r payload f u)

-- The writer succeeds only on a request whose fields fit, so it never sends a frame that the reader
-- would cut elsewhere.
write-ok-AllFit : (r : Request) (out out' : List ℕ) → write r out ≡ ok tt out' → AllFit r
unfolding write
write-ok-AllFit r out out' h =
    let start : List ℕ = out ++ identity ++ version in
    let (_, s, e, h') = and_then-eq-ok (write_str r.service start) _ h in
    let (_, s', e', h'') = and_then-eq-ok (write_opt r.capability s) _ h' in
    record {
      service = Fits-of-write_str r.service start s e;
      capability = FitsOpt-of-write_opt r.capability s s' e';
      membership = FitsOpt-of-write_opt r.membership s' out' h'';
    }
