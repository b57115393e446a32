-- ===== src/Command/Tidy.antt =====
-- What the commands leave behind, and what they tell the network.
use tightbeam.Base.{
  ℕ, ◌≡◌, ◌≢◌, refl, ◌∙◌, Bool, true, false, ◌&&◌, Option, none, some, List, [], ◌∷◌, any,
}
use tightbeam.Command.{
  Command, expose, connect, share, attenuate, revoke, tree, Cli, Role, serving, dialing, reachable,
  dialing_only, binding, Lan, started, discovery, Effect, loads_identity, loads_root,
  loads_denylist, binds, discovers, runs, closes, World, attempt, on_node, run_command, run,
}

abbrev pub is_bind : Effect → Bool
is_bind (binds b) = true
is_bind e = false

abbrev pub is_close : Effect → Bool
is_close closes = true
is_close e = false

abbrev pub over_n0 : Effect → Bool
over_n0 (binds reachable) = true
over_n0 (binds dialing_only) = true
over_n0 e = false

abbrev pub announces : Lan → Bool
announces (started (s ∷ ss)) = true
announces lan = false

-- An effect by which others may learn that a node is here.
abbrev pub publishes : Effect → Bool
publishes (binds reachable) = true
publishes (discovers d) = announces d.lan
publishes e = false

abbrev pub last_of : Effect → List Effect → Effect
last_of e [] = e
last_of e (x ∷ xs) = last_of x xs

abbrev is_expose : Command → Bool
is_expose expose = true
is_expose c = false

record IsTidy (bind offline seen : Bool) (es : List Effect) : Type 0 where
  closed : any is_close es ≡ any is_bind es && bind
  closed_last : any is_close es ≡ true → last_of runs es ≡ closes
  unseen : seen ≡ false → any publishes es ≡ false
  off_n0 : offline ≡ true → any over_n0 es ≡ false

binding_dialing :
    (offline : Bool) (addr : Option ℕ) → publishes (binds (binding offline addr dialing)) ≡ false
unfolding binding
binding_dialing offline (some addr) = refl
binding_dialing true none = refl
binding_dialing false none = refl

binding_offline : (addr : Option ℕ) (role : Role) → over_n0 (binds (binding true addr role)) ≡ false
unfolding binding
binding_offline (some addr) role = refl
binding_offline none role = refl

discovery_dialing :
    (mdns : Bool) (sockets : List ℕ) (peers : List (ℕ × List ℕ))
    → publishes (discovers (discovery mdns sockets peers dialing)) ≡ false
unfolding discovery
discovery_dialing true sockets peers = refl
discovery_dialing false sockets peers = refl

node_trace :
    (cli : Cli) (w : World) (role : Role) (seen bind offline : Bool)
    → (seen ≡ false → role ≡ dialing)
    → IsTidy bind offline seen
        (attempt
          (binds (binding offline cli.bind_addr role))
          bind
          (discovers (discovery w.mdns w.sockets cli.peers role) ∷ runs ∷ closes ∷ [], w.body)).0
node_trace cli w role seen true offline h = record {
  closed = refl;
  closed_last = λ _. refl;
  unseen = λ e.
      rw (h e, binding_dialing offline cli.bind_addr, discovery_dialing w.mdns w.sockets cli.peers)
        refl;
  off_n0 = λ e. rw (e, binding_offline cli.bind_addr role) refl;
}
node_trace cli w role seen false offline h = record {
  closed = refl;
  closed_last = λ no. absurd cc;
  unseen = λ e. rw (h e, binding_dialing offline cli.bind_addr) refl;
  off_n0 = λ e. rw (e, binding_offline cli.bind_addr role) refl;
}

last_of_close :
    (e f : Effect) (es : List Effect) → any is_close es ≡ true → last_of e es ≡ last_of f es
last_of_close e f [] h = absurd cc
last_of_close e f (x ∷ xs) h = refl

attempt-IsTidy :
    (bind offline seen : Bool) (e : Effect) (done : Bool) (rest : List Effect × Bool)
    → is_close e ≡ false
    → is_bind e ≡ false
    → publishes e ≡ false
    → over_n0 e ≡ false
    → IsTidy bind offline seen rest.0
    → IsTidy bind offline seen (attempt e done rest).0
attempt-IsTidy bind offline seen e true rest c b p n k = record {
  closed = rw (c, b) k.closed;
  closed_last = λ h.
      let there : any is_close rest.0 ≡ true = rw (c) at h in
      last_of_close e runs rest.0 there ∙ k.closed_last there;
  unseen = λ h. rw (p) (k.unseen h);
  off_n0 = λ h. rw (n) (k.off_n0 h);
}
attempt-IsTidy bind offline seen e false rest c b p n k = record {
  closed = rw (c, b) refl;
  closed_last = λ h. absurd (cc (rw (c) at h));
  unseen = λ h. rw (p) refl;
  off_n0 = λ h. rw (n) refl;
}

local_IsTidy : (bind offline : Bool) → IsTidy bind offline false (runs ∷ [])
local_IsTidy bind offline = record {
  closed = refl;
  closed_last = λ no. absurd cc;
  unseen = λ _. refl;
  off_n0 = λ _. refl;
}

run_command-IsTidy :
    (c : Command) (cli : Cli) (w : World)
    → IsTidy w.bind cli.offline (is_expose c) (run_command c cli w).0
run_command-IsTidy tree cli w = local_IsTidy w.bind cli.offline
run_command-IsTidy attenuate cli w = local_IsTidy w.bind cli.offline
run_command-IsTidy revoke cli w = local_IsTidy w.bind cli.offline
run_command-IsTidy share cli w =
    attempt-IsTidy w.bind cli.offline false (loads_identity cli.key) w.identity _ refl refl refl
      refl
      (attempt-IsTidy w.bind cli.offline false loads_root w.root (runs ∷ [], w.body) refl refl refl
        refl (local_IsTidy w.bind cli.offline))
run_command-IsTidy expose cli w =
    attempt-IsTidy w.bind cli.offline true (loads_identity cli.key) w.identity _ refl refl refl refl
      (attempt-IsTidy w.bind cli.offline true loads_root w.root _ refl refl refl refl (
        attempt-IsTidy w.bind cli.offline true loads_denylist w.denylist (on_node cli w serving)
          refl refl refl refl (node_trace cli w serving true w.bind cli.offline (λ no. absurd cc))))
run_command-IsTidy connect cli w =
    attempt-IsTidy w.bind cli.offline false (loads_identity cli.key) w.identity
      (on_node cli w dialing) refl refl refl refl
      (node_trace cli w dialing false w.bind cli.offline (λ _. refl))

not_expose : (c : Command) → c ≢ expose → is_expose c ≡ false
not_expose expose h = absurd (h refl)
not_expose c h = refl

-- The commands leave no node behind, and only `expose` is seen. A node is closed exactly when one was
-- bound, and closing it is the last thing done; a command other than `expose` publishes nothing, to the
-- internet or on the local network; and with `--offline` nothing is bound over the internet.
pub run-tidy :
    (cli : Cli) (w : World)
    → (any is_close (run cli w).0 ≡ any is_bind (run cli w).0 && w.bind)
      × (any is_close (run cli w).0 ≡ true → last_of runs (run cli w).0 ≡ closes)
      × (cli.command ≢ expose → any publishes (run cli w).0 ≡ false)
      × (cli.offline ≡ true → any over_n0 (run cli w).0 ≡ false)
unfolding run
run-tidy cli w =
    let k = run_command-IsTidy cli.command cli w in
    (k.closed, k.closed_last, λ other. k.unseen (not_expose cli.command other), k.off_n0)
