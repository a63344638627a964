-- ===== src/Confirm/Destructive.antt =====
-- When confirm.py lets a destructive tool run.
use beacon_mcp.Base.{
  String, ◌≡◌, ◌≢◌, ◌⊎◌, inl, inr, ◌↔◌, sym, ap, subst, Option-cases, Bool-cases, Bool, true, false,
  ◌&&◌, some, List, [], ◌∷◌, string_has_eq, member, Result, ok, arith,
}
use text.Mathlib.TextEquality.{eq_iff}
use beacon_mcp.Confirm.{
  Kwargs, Elicitation, Dialog, failed, answered, Ctx, Stopped, supports_form, needs_confirmation,
  confirmed, ask, confirm_destructive,
}

ask_iff :
    (tool : String) (kw kw' : Kwargs) (d : Dialog)
    → (ask d tool kw ≡ ok kw') ↔ ((d ≡ answered "accept" true) × (kw' ≡ confirmed tool kw))
unfolding ask
ask_iff tool kw kw' failed = ground arith
ask_iff tool kw kw' (answered action ticked) = ground (arith, string_has_eq.beq_iff action "accept")

abbrev pub Listed : String → List String → Type 0
Listed tool [] = ⊥
Listed tool (t ∷ tools) = (tool ≡ t) ⊎ Listed tool tools

-- The call is one that a dialog guards: the tool is listed, this is no dry run, and a restore without
-- `force` is no reason to ask.
abbrev pub IsGuarded : String → Kwargs → List String → Type 0
IsGuarded tool kw tools =
    Listed tool tools
    × (kw.dry_run ≡ false)
    × ((tool ≢ "proxmox_backup_restore") ⊎ (kw.force ≡ true))

-- The client can show the dialog: there is a request, and it declares elicitation by forms, or without
-- saying by what.
abbrev pub CanAsk : Ctx → Type 0
CanAsk ctx =
    (ctx.has_request ≡ true)
    × (e : Elicitation) × (ctx.elicitation ≡ some e)
    × ((e.form ≡ true) ⊎ (e.url ≡ false))

-- The arguments that a confirmed call runs with.
abbrev pub RunsWith : String → Kwargs → Kwargs → Type 0
RunsWith tool kw kw' =
    ((tool ≡ "beaconmcp_self_update") × (kw' ≡ record kw { confirm = some true }))
    ⊎ ((tool ≢ "beaconmcp_self_update") × (kw' ≡ kw))

member_iff : (tool : String) (tools : List String) → (member tool tools ≡ true) ↔ Listed tool tools
unfolding member
member_iff tool [] = ground arith
member_iff tool (t ∷ tools) = ground (arith, member_iff tool tools, eq_iff t tool, eq_iff tool t)

needs_confirmation_iff :
    (tool : String) (kw : Kwargs) (tools : List String)
    → (needs_confirmation tool kw tools ≡ true) ↔ IsGuarded tool kw tools
unfolding needs_confirmation
needs_confirmation_iff tool kw tools =
    ground (arith, member_iff tool tools, eq_iff tool "proxmox_backup_restore")

supports_form_iff :
    (ctx : Ctx)
    → (supports_form ctx ≡ true)
      ↔ ((e : Elicitation) × (ctx.elicitation ≡ some e) × ((e.form ≡ true) ⊎ (e.url ≡ false)))
unfolding supports_form
supports_form_iff ctx = (
  λ h. elim (Option-cases ctx.elicitation) [
    | inl silent ↦ absurd (ground (arith, silent))
    | inr (e, declared) ↦ (e, declared, ground (arith, declared))
  ],
  λ (e, declared, how). ground (arith, declared, how),
)

confirmed_iff : (tool : String) (kw kw' : Kwargs) → (kw' ≡ confirmed tool kw) ↔ RunsWith tool kw kw'
unfolding confirmed
confirmed_iff tool kw kw' = ground (arith, eq_iff tool "beaconmcp_self_update")

not_both : {b : Bool} → b ≡ false → b ≡ true → ⊥
not_both f t = ground arith

abbrev IsRun : Ctx → String → Kwargs → Kwargs → List String → Type 0
IsRun ctx tool kw kw' tools =
    ((¬ (IsGuarded tool kw tools × CanAsk ctx)) × (kw' ≡ kw))
    ⊎ (IsGuarded tool kw tools
        × CanAsk ctx
        × (ctx.dialog ≡ answered "accept" true)
        × RunsWith tool kw kw')

unasked :
    (ctx : Ctx) (tool : String) (kw kw' : Kwargs) (tools : List String)
    → ¬ (IsGuarded tool kw tools × CanAsk ctx)
    → (◌≡◌ {A = Result Stopped Kwargs} (ok kw) (ok kw')) ↔ IsRun ctx tool kw kw' tools
unasked ctx tool kw kw' tools out = (
  λ h. inl (out, ground (arith, h)),
  λ run. elim run [
    | inl (out', same) ↦ ap ok (sym same)
    | inr (guarded, can, accepted, args) ↦ absurd (out (guarded, can))
  ],
)

asked :
    (ctx : Ctx) (tool : String) (kw kw' : Kwargs) (tools : List String)
    → IsGuarded tool kw tools
    → CanAsk ctx
    → (ask ctx.dialog tool kw ≡ ok kw') ↔ IsRun ctx tool kw kw' tools
asked ctx tool kw kw' tools guarded can =
    let runs = ask_iff tool kw kw' ctx.dialog in
    let args = confirmed_iff tool kw kw' in
    (
      λ h. let (accepted, same) = runs.0 h in inr (guarded, can, accepted, args.0 same),
      λ run. elim run [
        | inl (out, same) ↦ absurd (out (guarded, can))
        | inr (g, c, accepted, with) ↦ runs.1 (accepted, args.1 with)
      ],
    )

-- What `confirm_destructive` comes to, by its three tests.
confirm_destructive-skip :
    (ctx : Ctx) (tool : String) (kw : Kwargs) (tools : List String)
    → needs_confirmation tool kw tools && (ctx.has_request && supports_form ctx) ≡ false
    → confirm_destructive (some ctx) tool kw tools ≡ ok kw
unfolding confirm_destructive
confirm_destructive-skip ctx tool kw tools h = ground (arith, h)

confirm_destructive-ask :
    (ctx : Ctx) (tool : String) (kw : Kwargs) (tools : List String)
    → needs_confirmation tool kw tools && (ctx.has_request && supports_form ctx) ≡ true
    → confirm_destructive (some ctx) tool kw tools ≡ ask ctx.dialog tool kw
unfolding confirm_destructive
confirm_destructive-ask ctx tool kw tools h = ground (arith, h)

tests_iff :
    (ctx : Ctx) (tool : String) (kw : Kwargs) (tools : List String)
    → (needs_confirmation tool kw tools && (ctx.has_request && supports_form ctx) ≡ true)
      ↔ (IsGuarded tool kw tools × CanAsk ctx)
tests_iff ctx tool kw tools =
    let needs = needs_confirmation_iff tool kw tools in
    let forms = supports_form_iff ctx in
    (
      λ h.
          let (e, declared, how) = forms.0 (ground (arith, h)) in
          (needs.0 (ground (arith, h)), (ground (arith, h), e, declared, how)),
      λ (guarded, (there, e, declared, how)).
          ground (arith, needs.1 guarded, there, forms.1 (e, declared, how)),
    )

-- A tool that a client calls runs without more ado, with the arguments that it was given, just when
-- no dialog guards the call (the tool is not listed, a dry run, or a restore without force) or the
-- client cannot show one; else it runs just when the dialog was accepted with its box ticked, and
-- then with its arguments, but for confirm = True of beaconmcp_self_update.
pub destructive_iff :
    (ctx : Ctx) (tool : String) (kw kw' : Kwargs) (tools : List String)
    → (confirm_destructive (some ctx) tool kw tools ≡ ok kw') ↔ (
        ((¬ (IsGuarded tool kw tools × CanAsk ctx)) × (kw' ≡ kw))
        ⊎ (IsGuarded tool kw tools
            × CanAsk ctx
            × (ctx.dialog ≡ answered "accept" true)
            × RunsWith tool kw kw'))
destructive_iff ctx tool kw kw' tools =
    let tests = needs_confirmation tool kw tools && (ctx.has_request && supports_form ctx) in
    let iff = tests_iff ctx tool kw tools in
    elim (Bool-cases tests) [
      | inr free ↦
          subst (λ out. (out ≡ ok kw') ↔ IsRun ctx tool kw kw' tools)
            (sym (confirm_destructive-skip ctx tool kw tools free))
            (unasked ctx tool kw kw' tools λ both. not_both free (iff.1 both))
      | inl guarded ↦
          let (guard, can) = iff.0 guarded in
          subst (λ out. (out ≡ ok kw') ↔ IsRun ctx tool kw kw' tools)
            (sym (confirm_destructive-ask ctx tool kw tools guarded))
            (asked ctx tool kw kw' tools guard can)
    ]
