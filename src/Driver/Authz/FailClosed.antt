-- ===== src/Driver/Authz/FailClosed.antt =====
-- When `AuthorizationBackend::authorize` of services/driverd/src/authz.rs lets an action pass.
use mission_os.Base.{
  Option, some, Bool, true, ◌≡◌, ◌⊎◌, inl, inr, ◌↔◌, arith, Option-cases, Bool-cases,
}
use mission_os.Base.Text.{Text}
use mission_os.Driver.Authz.{
  DriverAction, is_read_only, is_authorized, PolKit, Authorizer, polkit_decision, decision,
}

-- PolKit was asked, and it answered yes.
pub record IsConfirmed (p : PolKit) (action : DriverAction) (caller : Text) : Type 0 where
  pub ask : DriverAction → Text → Option Bool
  pub is_connected : p.conn ≡ some ask
  pub is_yes : ask action caller ≡ some true

-- The action changes nothing, a development setting lets everything pass, or PolKit confirms it.
abbrev pub IsPermitted : Authorizer → DriverAction → Text → Type 0
IsPermitted a action caller =
    (is_read_only action ≡ true)
    ⊎ ((a.allow_unauthorized ≡ true)
        ⊎ ((p : PolKit) × (a.polkit ≡ some p)
            × ((p.allow_unauthorized ≡ true) ⊎ IsConfirmed p action caller)))

polkit_decision-IsConfirmed :
    (p : PolKit) (action : DriverAction) (caller : Text)
    → is_authorized (polkit_decision p action caller) ≡ true
    → (is_read_only action ≡ true) ⊎ ((p.allow_unauthorized ≡ true) ⊎ IsConfirmed p action caller)
unfolding polkit_decision is_authorized
polkit_decision-IsConfirmed p action caller h = elim (Bool-cases (is_read_only action)) [
  | inl k ↦ inl k
  | inr k ↦ inr (elim (Bool-cases p.allow_unauthorized) [
    | inl l ↦ inl l
    | inr l ↦ inr (elim (Option-cases p.conn) [
      | inl m ↦ ground arith
      | inr (ask, m) ↦ record { ask = ask; is_connected = m; is_yes = ground arith }
    ])
  ])
]

IsConfirmed-polkit_decision :
    (p : PolKit) (action : DriverAction) (caller : Text)
    → IsConfirmed p action caller
    → is_authorized (polkit_decision p action caller) ≡ true
unfolding polkit_decision is_authorized
IsConfirmed-polkit_decision p action caller h =
    let connected = h.is_connected in let answer = h.is_yes in ground arith

polkit_decision-allowed :
    (p : PolKit) (action : DriverAction) (caller : Text)
    → p.allow_unauthorized ≡ true
    → is_authorized (polkit_decision p action caller) ≡ true
unfolding polkit_decision is_authorized
polkit_decision-allowed p action caller h = ground arith

-- An action is authorized exactly if it only reads, or a development setting of the authorizer or of
-- PolKit lets everything pass, or PolKit is there, is connected, and answers yes: an authorizer
-- without PolKit, PolKit without a connection, and a call that fails all deny.
pub decision-IsPermitted :
    (a : Authorizer) (action : DriverAction) (caller : Text)
    → (is_authorized (decision a action caller) ≡ true) ↔ IsPermitted a action caller
unfolding decision is_authorized
decision-IsPermitted a action caller = (
  (λ h. elim (Bool-cases (is_read_only action)) [
    | inl k ↦ inl k
    | inr k ↦ inr (elim (Bool-cases a.allow_unauthorized) [
      | inl l ↦ inl l
      | inr l ↦ inr (elim (Option-cases a.polkit) [
        | inl m ↦ ground arith
        | inr (p, m) ↦ (
          p,
          m,
          elim (polkit_decision-IsConfirmed p action caller (ground arith)) [
            | inl n ↦ ground arith
            | inr n ↦ n
          ],
        )
      ])
    ])
  ]),
  (λ h. elim h [
    | inl k ↦ ground arith
    | inr (inl k) ↦ ground arith
    | inr (inr (p, k, inl l)) ↦ ground (arith, polkit_decision-allowed p action caller l)
    | inr (inr (p, k, inr l)) ↦ ground (arith, IsConfirmed-polkit_decision p action caller l)
  ]),
)
