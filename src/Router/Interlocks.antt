-- ===== src/Router/Interlocks.antt =====
-- What the construction of an exposer guarantees of every name that anyone may dial.
use tightbeam.Base.{
  ◌≡◌, refl, sym, subst, ap, Bool, true, false, not, ◌&&◌, ◌||◌, some, List, any, All,
  if◌then◌else◌,
}
use tightbeam.Base.Bytes.{Text}
use tightbeam.Base.Results.{Result, ok, err, ◌>>◌, step_ok, ok-injective}
use tightbeam.Policy.{open_safe}
use tightbeam.Router.{
  Services, Route, Target, handler, raw_stream, Access, family, member, proven_only, Refusal,
  Exposer, get, contains, unsafe_found, unsafe_target, public_found, public_route, prove_unsafe,
  prove_public, prove, posture, refuse_if, is_proven_only, is_member, is_keyless, is_raw_stream,
  bad_source, no_public_use,
}
use tightbeam.Router.Overlays.{
  prove_unsafe-Proved, prove_public-Proved, contains-All, get-any-false, get-name,
}

abbrev pub is_family : Access → Bool
is_family family = true
is_family member = false
is_family proven_only = false

-- What may face anyone: a handler that its author calls safe to open, behind no floor; or a raw
-- stream that was opened by its own name, whose source may be opened, and that no floor marks.
abbrev pub may_open : Bool → Target → Access → Bool
may_open named (handler exposure) access = open_safe exposure && is_family access
may_open named (raw_stream openable) access = named && openable && not (is_member access)

step_past :
    {A P : Type 0} (flag : Bool) (refusal : Refusal) (rest : Result Refusal A) {a : A}
    → (refuse_if flag refusal >> rest) ≡ ok a
    → (flag ≡ false → rest ≡ ok a → P)
    → P
step_past true refusal rest h k = absurd cc
step_past false refusal rest h k = k refl h

-- What a construction that succeeds has checked.
pub record Checked (services : Services) (node_open : Bool) (public public_unsafe : List Text)
    (e : Exposer) : Type 0 where
  no_proven : node_open && any (λ r. is_proven_only r.access) services ≡ false
  no_keyless : node_open && any (λ r. is_keyless r.target) services ≡ false
  pub no_raw :
      node_open && any (λ r. is_raw_stream r.target && not (contains public_unsafe r.name)) services
      ≡ false
  no_member : node_open && any (λ r. is_member r.access) services ≡ false
  no_open_member : any (λ r. is_member r.access && contains public_unsafe r.name) services ≡ false
  pub all_unsafe : All (λ n. unsafe_found (get services n) ≡ ok tt) public_unsafe
  all_public : All (λ n. public_found (get services n) ≡ ok tt) public
  pub result : e ≡ record {
    services = services;
    node_open = node_open;
    public = public;
    public_unsafe = public_unsafe;
  }

pub prove-Checked :
    (services : Services) (node_open : Bool) (public public_unsafe : List Text) (e : Exposer)
    → prove services node_open public public_unsafe ≡ ok e
    → Checked services node_open public public_unsafe e
unfolding prove
prove-Checked services node_open public public_unsafe e h =
    step_past (node_open && any (λ r. is_proven_only r.access) services) _ _ h (λ e1 h1.
      step_past (node_open && any (λ r. is_keyless r.target) services) _ _ h1 (λ e2 h2.
        step_ok (prove_unsafe services public_unsafe) _ h2 (λ raw e3 h3.
          step_past
            (node_open && any (λ r. is_raw_stream r.target && not (contains raw r.name)) services) _
            _ h3
            (λ e4 h4.
              step_past (node_open && any (λ r. is_member r.access) services) _ _ h4 (λ e5 h5.
                step_past (any (λ r. is_member r.access && contains raw r.name) services) _ _ h5
                  (λ e6 h6. step_ok (prove_public services public) _ h6 (λ safe e7 h7.
                    let p = prove_unsafe-Proved services public_unsafe raw e3 in
                    let q = prove_public-Proved services public safe e7 in
                    record {
                      no_proven = e1;
                      no_keyless = e2;
                      no_raw = rw (← p.same) e4;
                      no_member = e5;
                      no_open_member = rw (← p.same) e6;
                      all_unsafe = p.all;
                      all_public = q.all;
                      result = rw (← p.same, ← q.same) (sym (ok-injective h7));
                    })))))))

openable-true : (b : Bool) → (if b then ok tt else err bad_source) ≡ ok tt → b ≡ true
openable-true true h = refl
openable-true false h = absurd cc

safe-true : (b : Bool) → (if b then ok tt else err no_public_use) ≡ ok tt → b ≡ true
safe-true true h = refl
safe-true false h = absurd cc

-- A stream that was opened by its own name.
named_raw :
    (openable : Bool) (access : Access)
    → is_member access && true ≡ false
    → unsafe_target (raw_stream openable) ≡ ok tt
    → may_open true (raw_stream openable) access ≡ true
named_raw openable family h4 h6 = rw (openable-true openable h6) refl
named_raw openable proven_only h4 h6 = rw (openable-true openable h6) refl
named_raw openable member h4 h6 = absurd cc

public_only :
    (target : Target) (access : Access)
    → public_route access target ≡ ok tt
    → may_open false target access ≡ true
public_only (handler exposure) family h = rw (safe-true (open_safe exposure) h) refl
public_only (handler exposure) member h = absurd cc
public_only (handler exposure) proven_only h = absurd cc
public_only (raw_stream openable) family h = absurd cc
public_only (raw_stream openable) member h = absurd cc
public_only (raw_stream openable) proven_only h = absurd cc

not-false : (b : Bool) → not b ≡ false → b ≡ true
not-false true h = refl
not-false false h = absurd cc

-- A route of a node that is open to anyone.
node_only :
    (target : Target) (access : Access)
    → is_proven_only access ≡ false
    → is_keyless target ≡ false
    → is_raw_stream target && true ≡ false
    → is_member access ≡ false
    → may_open false target access ≡ true
node_only (handler exposure) family h0 h1 h2 h3 = rw (not-false (open_safe exposure) h1) refl
node_only (handler exposure) member h0 h1 h2 h3 = absurd cc
node_only (handler exposure) proven_only h0 h1 h2 h3 = absurd cc
node_only (raw_stream openable) access h0 h1 h2 h3 = absurd cc

-- The checks on one route.
opened_route :
    (open_node public named : Bool) (target : Target) (access : Access)
    → open_node && is_proven_only access ≡ false
    → open_node && is_keyless target ≡ false
    → open_node && (is_raw_stream target && not named) ≡ false
    → open_node && is_member access ≡ false
    → is_member access && named ≡ false
    → (public ≡ true → public_route access target ≡ ok tt)
    → (named ≡ true → unsafe_target target ≡ ok tt)
    → open_node || (public || named) ≡ true
    → may_open named target access ≡ true
opened_route open_node public true (raw_stream openable) access h0 h1 h2 h3 h4 h5 h6 h =
    named_raw openable access h4 (h6 refl)
opened_route open_node public true (handler exposure) access h0 h1 h2 h3 h4 h5 h6 h =
    absurd (cc (h6 refl))
opened_route open_node true false target access h0 h1 h2 h3 h4 h5 h6 h =
    public_only target access (h5 refl)
opened_route true false false target access h0 h1 h2 h3 h4 h5 h6 h =
    node_only target access h0 h1 h2 h3
opened_route false false false target access h0 h1 h2 h3 h4 h5 h6 h = absurd cc

and-any :
    (open_node : Bool) (p : Route → Bool) (services : Services) (name : Text) (route : Route)
    → open_node && any p services ≡ false
    → get services name ≡ some route
    → open_node && p route ≡ false
and-any true p services name route h found = get-any-false p services name route h found
and-any false p services name route h found = refl

-- Once an exposer is constructed, every route that anyone may dial, by an open gate or by either
-- overlay, may face anyone: a handler whose author calls it safe to open, with no floor, or a raw
-- stream that was opened by its own name over a source that may be opened, not marked for members.
pub prove-may_open :
    (services : Services) (node_open : Bool) (public public_unsafe : List Text) (e : Exposer)
    (name : Text) (route : Route)
    → prove services node_open public public_unsafe ≡ ok e
    → get services name ≡ some route
    → e.node_open || (contains e.public name || contains e.public_unsafe name) ≡ true
    → may_open (contains e.public_unsafe name) route.target route.access ≡ true
prove-may_open services node_open public public_unsafe e name route h found faces =
    let c = prove-Checked services node_open public public_unsafe e h in
    let named : contains public_unsafe route.name ≡ contains public_unsafe name =
      ap (contains public_unsafe) (get-name services name route found) in
    subst (λ x. may_open (contains x.public_unsafe name) route.target route.access ≡ true)
      (sym c.result)
      (opened_route node_open (contains public name) (contains public_unsafe name) route.target
        route.access
        (and-any node_open (λ r. is_proven_only r.access) services name route c.no_proven found)
        (and-any node_open (λ r. is_keyless r.target) services name route c.no_keyless found)
        (subst (λ b. node_open && (is_raw_stream route.target && not b) ≡ false) named
          (and-any node_open (λ r. is_raw_stream r.target && not (contains public_unsafe r.name))
            services name route c.no_raw found))
        (and-any node_open (λ r. is_member r.access) services name route c.no_member found)
        (subst (λ b. is_member route.access && b ≡ false) named
          (get-any-false (λ r. is_member r.access && contains public_unsafe r.name) services name
            route c.no_open_member found))
        (λ p.
          subst (λ o. public_found o ≡ ok tt) found
            (contains-All (λ n. public_found (get services n) ≡ ok tt) public name c.all_public p))
        (λ p.
          subst (λ o. unsafe_found o ≡ ok tt) found
            (contains-All (λ n. unsafe_found (get services n) ≡ ok tt) public_unsafe name
              c.all_unsafe p))
        (subst
          (λ x. x.node_open || (contains x.public name || contains x.public_unsafe name) ≡ true)
          c.result faces))

-- A construction keeps what it was given.
pub prove_result :
    (services : Services) (node_open : Bool) (public public_unsafe : List Text) (e : Exposer)
    → prove services node_open public public_unsafe ≡ ok e
    → e ≡ record {
      services = services;
      node_open = node_open;
      public = public;
      public_unsafe = public_unsafe;
    }
prove_result services node_open public public_unsafe e h =
    (prove-Checked services node_open public public_unsafe e h).result

-- The manifest, made from the overlays that were proved, gives every name the posture that the catalog
-- gives it from the overlays that were asked for.
posture-prove :
    (services : Services) (node_open : Bool) (public public_unsafe : List Text) (e : Exposer)
    (name : Text)
    → prove services node_open public public_unsafe ≡ ok e
    → posture e.node_open e.public e.public_unsafe name
      ≡ posture node_open public public_unsafe name
posture-prove services node_open public public_unsafe e name h =
    ap (λ x. posture x.node_open x.public x.public_unsafe name)
      (prove-Checked services node_open public public_unsafe e h).result
