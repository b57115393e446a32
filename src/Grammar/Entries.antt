-- ===== src/Grammar/Entries.antt =====
-- A table that entries are parsed into.
use tightbeam.Base.{
  ◌+◌, ◌≡◌, refl, Bool, true, false, Option, none, some, List, [], ◌∷◌, any, All, length, arith,
  same_bytes, Bool-cases, inl, inr,
}
use tightbeam.Base.Bytes.{Text}
use tightbeam.Base.Results.{ok, step_ok, some_or, ok-injective}
use tightbeam.Router.{Services, Route, get}
use tightbeam.Router.Overlays.{same_bytes-eq}
use tightbeam.Dispatch.Passed.{some_or-ok}
use tightbeam.Grammar.{
  Spec, split_once, parse_target, entry_route, extend_parse, bad_name, no_service, parse_fresh,
}
use tightbeam.Grammar.Words.{same_bytes_self}

get-none :
    (services : Services) (name : Text)
    → any (λ r. same_bytes r.name name) services ≡ false
    → get services name ≡ none
get-none [] name h = refl
get-none (r ∷ rs) name h = elim (Bool-cases (same_bytes r.name name)) [
  | inl here ↦ absurd (cc (rw (here) at h))
  | inr there ↦ rw (there) (get-none rs name (rw (there) at h))
]

-- A new route hides none that the table has.
get_later :
    (new : Route) (services : Services) (name : Text) (route : Route)
    → any (λ r. same_bytes r.name new.name) services ≡ false
    → get services name ≡ some route
    → get (new ∷ services) name ≡ some route
get_later new services name route fresh found = elim (Bool-cases (same_bytes new.name name)) [
  | inr there ↦ rw (there) found
  | inl here ↦
      let e : new.name ≡ name = same_bytes-eq new.name name here in
      absurd (cc (get-none services name (rw (e) at fresh), found))
]

pub parse_fresh-ok :
    (terminal taken : Bool) (addr : Text) (spec : Spec)
    → parse_fresh terminal taken addr ≡ ok spec
    → (taken ≡ false) × (parse_target terminal addr ≡ ok spec)
parse_fresh-ok terminal true addr spec h = absurd cc
parse_fresh-ok terminal false addr spec h = (refl, h)

module _ (parse_service : Text → Option Text) (terminal : Bool) (openable : Spec → Bool) where
  -- What an entry says: its name, and the target behind it.
  pub record Says (after : Services) (entry : Text) : Type 0 where
    pub name : Text
    pub addr : Text
    pub spec : Spec
    pub splits : split_once b'=' entry ≡ some (name, addr)
    pub parses : parse_target terminal addr ≡ ok spec
    pub found : get after name ≡ some (entry_route parse_service terminal openable name spec)

  -- Entries that are accepted change no route that the table has, each entry's name finds the target
  -- that the entry gives it, and the table grows by one route for each.
  pub extend_parse-Says :
      (entries : List Text) (services after : Services)
      → extend_parse parse_service terminal openable entries services ≡ ok after
      → ((name : Text) (route : Route)
          → get services name ≡ some route
          → get after name ≡ some route)
        × (All (Says after) entries × (length after ≡ length entries + length services))
  unfolding extend_parse
  extend_parse-Says [] services after h =
      let e : services ≡ after = ok-injective h in
      ((λ name route found. rw (← e) found), (tt, rw (← e) (omega arith)))
  extend_parse-Says (entry ∷ entries) services after h =
      step_ok (some_or no_service (split_once b'=' entry)) _ h (λ pair e1 h1.
        step_ok (some_or bad_name (parse_service pair.0)) _ h1 (λ checked e2 h2.
          step_ok (parse_fresh terminal (any (λ r. same_bytes r.name pair.0) services) pair.1) _ h2
            (λ spec e3 h3.
              let (fresh, parses) = parse_fresh-ok terminal _ pair.1 spec e3 in
              let new = entry_route parse_service terminal openable pair.0 spec in
              let (keeps, (says, grown)) = extend_parse-Says entries (new ∷ services) after h3 in
              let here : get (new ∷ services) pair.0 ≡ some new =
                rw (same_bytes_self pair.0) refl in
              (
                (λ name route found.
                    keeps name route (get_later new services name route fresh found)),
                (
                  (
                    record {
                      name = pair.0;
                      addr = pair.1;
                      spec = spec;
                      splits = some_or-ok no_service (split_once b'=' entry) e1;
                      parses = parses;
                      found = keeps pair.0 new here;
                    },
                    says,
                  ),
                  omega (arith, grown),
                ),
              ))))
