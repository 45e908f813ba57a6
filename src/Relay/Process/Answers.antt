-- ===== src/Relay/Process/Answers.antt =====
-- The answers of the signer and of the collector to a packet that
-- attestor/chainService/relay/relays.go processes, and what they come to.
use verulink.Base.{
  panics, Result, ◌≡◌, ◌≢◌, refl, ap, ◌∙◌, ◌⊎◌, inl, inr, Bytes, some, none, ok, err, Error,
  time_out, invalid_signature, already_relayed, packet_not_found, message, joined, Result-cases,
}
use verulink.Chain.{ScreenedPacket}
use verulink.Relay.Process.{Services, sign_and_send, send_error}

-- The signer signs, and the collector takes the signed packet or says that it has been relayed.
pub record Accepts (services : Services) (sp : ScreenedPacket) : Type 0 where
  pub signed : Bytes × Bytes
  pub signs : services.hash_and_sign_screened_packet sp ≡ ok signed
  pub taken :
      (services.send_to_collector sp signed.0 signed.1 ≡ ok tt)
      ⊎ (services.send_to_collector sp signed.0 signed.1 ≡ err already_relayed)

-- Neither the signer nor the collector panics.
pub record IsCalm (services : Services) : Type 0 where
  pub signs : (sp : ScreenedPacket) → services.hash_and_sign_screened_packet sp ≢ panics
  pub sends :
      (sp : ScreenedPacket) (hash signature : Bytes)
      → services.send_to_collector sp hash signature ≢ panics

-- The signer fails, or the collector does on the signed packet, but not because it is a duplicate.
pub data Refuses (services : Services) (sp : ScreenedPacket) : Type 0 where
  unsigned : (e : Error) → services.hash_and_sign_screened_packet sp ≡ err e → Refuses services sp
  not_taken :
      (signed : Bytes × Bytes) (e : Error)
      → services.hash_and_sign_screened_packet sp ≡ ok signed
      → services.send_to_collector sp signed.0 signed.1 ≡ err e
      → e ≢ already_relayed
      → Refuses services sp

send_error_err :
    (e : Error)
    → ((e ≡ already_relayed) × (send_error (err e) ≡ some none))
      ⊎ ((e ≢ already_relayed) × (send_error (err e) ≡ some (some e)))
send_error_err already_relayed = inl (refl, refl)
send_error_err time_out = inr (λ h. cc, refl)
send_error_err (invalid_signature a b) = inr (λ h. cc, refl)
send_error_err (packet_not_found a b c d) = inr (λ h. cc, refl)
send_error_err (message m) = inr (λ h. cc, refl)
send_error_err (joined ms) = inr (λ h. cc, refl)

send_error_some : (r : Result (Unit {0})) → r ≢ panics → send_error r ≢ none
send_error_some (ok u) h e = cc
send_error_some (err x) h e = elim (send_error_err x) [
  | inl (same, cleared) ↦ cc
  | inr (other, kept) ↦ cc
]
send_error_some panics h e = h refl

pub IsCalm-sign_and_send :
    (services : Services) (sp : ScreenedPacket) → IsCalm services → sign_and_send services sp ≢ none
unfolding sign_and_send
IsCalm-sign_and_send services sp calm e =
    elim (Result-cases (services.hash_and_sign_screened_packet sp)) [
      | inl (signed, done) ↦
          send_error_some (services.send_to_collector sp signed.0 signed.1)
            (calm.sends sp signed.0 signed.1) (rw (sign_and_send, done) at e)
      | inr (inl (x, bad)) ↦ let no : some (some x) ≡ none = rw (sign_and_send, bad) at e in cc
      | inr (inr bad) ↦ calm.signs sp bad
    ]

-- What signing and delivering comes to is told by the answers of the services.
pub outcome_told :
    (services : Services) (sp : ScreenedPacket)
    → sign_and_send services sp ≢ none
    → (Accepts services sp × (sign_and_send services sp ≡ some none))
      ⊎ (Refuses services sp × ((e : Error) × (sign_and_send services sp ≡ some (some e))))
unfolding sign_and_send
outcome_told services sp alive = elim (Result-cases (services.hash_and_sign_screened_packet sp)) [
  | inl (signed, signs) ↦ elim (Result-cases (services.send_to_collector sp signed.0 signed.1)) [
    | inl (u, sent) ↦ inl (
      record { signed = signed; signs = signs; taken = inl sent },
      rw (sign_and_send, signs, sent) refl,
    )
    | inr (inl (e, bad)) ↦ elim (send_error_err e) [
      | inl (same, cleared) ↦ inl (
        record { signed = signed; signs = signs; taken = inr (bad ∙ ap err same) },
        rw (sign_and_send, signs, bad) cleared,
      )
      | inr (other, kept) ↦
          inr (not_taken signed e signs bad other, (e, rw (sign_and_send, signs, bad) kept))
    ]
    | inr (inr bad) ↦ absurd (alive (rw (sign_and_send, signs, bad) refl))
  ]
  | inr (inl (e, bad)) ↦ inr (unsigned e bad, (e, rw (sign_and_send, bad) refl))
  | inr (inr bad) ↦ absurd (alive (rw (sign_and_send, bad) refl))
]
