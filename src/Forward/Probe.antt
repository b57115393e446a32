-- ===== src/Forward/Probe.antt =====
-- What the probe before a forward foretells.
use tightbeam.Base.{chosen, sym, Bool, false, ℕ, ◌≡◌, ◌↔◌, refl, true, some, List, ◌==◌, ==-self}
use tightbeam.Protocol.Frames.{Details, Refusal}
use tightbeam.Connector.{
  Connector, Session, Dialed, admitted, fails, turned_away, wrong_peer, no_stream, unwritten,
  unread, request, handshake, open_on,
}
use tightbeam.Forward.{ready, stops, refused, probed, over_session, preflight, forward}

module _ (api : Details) where
  open api use {Detail}

  probed_ready :
      (connector : Connector) (session : Session) (binds : Bool) (d : Dialed Detail)
      → probed api connector session binds d ≡ ready session (request connector)
        ↔ (binds ≡ true) × ((payload : List ℕ) × (d ≡ admitted payload))
  probed_ready connector session true (admitted payload) = (λ e. (refl, (payload, refl)), λ e. refl)
  probed_ready connector session false (admitted payload) =
      (λ e. absurd (cc e), λ e. absurd (cc e.0))
  probed_ready connector session binds (fails (turned_away refusal)) =
      (λ e. absurd (cc e), λ e. absurd (cc e.1.1))
  probed_ready connector session binds (fails (wrong_peer dial reached)) =
      (λ e. absurd (cc e), λ e. absurd (cc e.1.1))
  probed_ready connector session binds (fails no_stream) =
      (λ e. absurd (cc e), λ e. absurd (cc e.1.1))
  probed_ready connector session binds (fails (unwritten x)) =
      (λ e. absurd (cc e), λ e. absurd (cc e.1.1))
  probed_ready connector session binds (fails (unread x)) =
      (λ e. absurd (cc e), λ e. absurd (cc e.1.1))

  probed_refused :
      (connector : Connector) (session : Session) (binds : Bool) (refusal : Refusal Detail)
      (d : Dialed Detail)
      → probed api connector session binds d ≡ stops (refused connector.dial refusal)
        ↔ (d ≡ fails (turned_away refusal))
  probed_refused connector session true refusal (admitted payload) =
      (λ e. absurd (cc e), λ e. absurd (cc e))
  probed_refused connector session false refusal (admitted payload) =
      (λ e. absurd (cc e), λ e. absurd (cc e))
  probed_refused connector session binds refusal (fails (turned_away other)) =
      (λ e. cc e, λ e. cc e)
  probed_refused connector session binds refusal (fails (wrong_peer dial reached)) =
      (λ e. absurd (cc e), λ e. absurd (cc e))
  probed_refused connector session binds refusal (fails no_stream) =
      (λ e. absurd (cc e), λ e. absurd (cc e))
  probed_refused connector session binds refusal (fails (unwritten x)) =
      (λ e. absurd (cc e), λ e. absurd (cc e))
  probed_refused connector session binds refusal (fails (unread x)) =
      (λ e. absurd (cc e), λ e. absurd (cc e))

  forward-open_on :
      (connector : Connector) (session : Session) (incoming : List ℕ)
      → session.peer ≡ connector.dial
      → forward api session (request connector) incoming ≡ open_on api connector session incoming
  unfolding forward open_on
  forward-open_on connector session incoming same =
      let met : (session.peer == connector.dial) ≡ true = rw (same) (==-self connector.dial) in
      sym (chosen (session.peer == connector.dial) _ _ met)

  -- The probe foretells every forwarded stream. `preflight` is ready exactly when the port is bound and a
  -- stream over the same session would be admitted, and then each local connection makes the dial that
  -- was probed, request and answer alike; whether the port is bound or not, it reports a refusal exactly
  -- when that dial is refused, with the refusal of the host.
  pub preflight-forward :
      (connector : Connector) (session : Session) (binds : Bool) (incoming : List ℕ)
      → session.opens ≡ true
      → (preflight api connector (record { session = some session; binds = binds }) incoming
            ≡ ready session (request connector)
          ↔ (binds ≡ true)
            × ((payload : List ℕ) × ((forward api session (request connector) incoming).result
                  ≡ admitted payload)))
        × ((refusal : Refusal Detail)
            → preflight api connector (record { session = some session; binds = binds }) incoming
                ≡ stops (refused connector.dial refusal)
              ↔ (forward api session (request connector) incoming).result
                ≡ fails (turned_away refusal))
        × (session.peer ≡ connector.dial
            → forward api session (request connector) incoming
              ≡ open_on api connector session incoming)
  unfolding preflight forward
  preflight-forward connector session binds incoming opens =
      let d = handshake api session.security (request connector) incoming in
      let asked : over_session api connector session incoming binds
          ≡ probed api connector session binds d.result =
        chosen session.opens _ _ opens in
      let carried : forward api session (request connector) incoming ≡ d =
        chosen session.opens _ _ opens in
      (
        rw (asked, carried) (probed_ready connector session binds d.result),
        λ refusal. rw (asked, carried) (probed_refused connector session binds refusal d.result),
        forward-open_on connector session incoming,
      )
