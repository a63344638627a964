-- ===== src/Confirm.antt =====
-- confirm.py: the dialog before a destructive tool runs.
pub mod Destructive
mod Tests
use beacon_mcp.Base.{
  String, ◌≡◌, ◌≢◌, ◌⊎◌, inl, inr, ◌↔◌, refl, sym, ap, subst, Option-cases, Bool-cases, Bool, true,
  false, ◌&&◌, ◌||◌, not, Option, none, some, List, [], ◌∷◌, if◌then◌else◌, string_has_eq, ◌==◌,
  member, Result, ok, err, arith,
}

abbrev pub default_confirm_tools : List String
default_confirm_tools =
    "bmc_power_off" ∷ "bmc_power_reset" ∷ "proxmox_snapshot_rollback" ∷ "proxmox_snapshot_delete"
    ∷ "proxmox_backup_restore" ∷ "beaconmcp_self_update" ∷ []

-- The keyword arguments of a tool, as far as this module reads or writes them: whether `dry_run` and
-- `force` are truthy, and `confirm`, where it is given.
pub record Kwargs : Type 0 where
  pub dry_run : Bool
  pub force : Bool
  pub confirm : Option Bool

-- The elicitation capability that a client declares: whether it names `form`, and `url`.
pub record Elicitation : Type 0 where
  pub form : Bool
  pub url : Bool

-- What comes of the dialog: it could not be shown, or it was answered by an action, with the value of
-- its field.
pub data Dialog : Type 0 where
  failed : Dialog
  answered : String → Bool → Dialog

-- A context with its request, where there is one: the capability, where one can be read and is declared.
pub record Ctx : Type 0 where
  pub has_request : Bool
  pub elicitation : Option Elicitation
  pub dialog : Dialog

pub data Stopped : Type 0 where
  confirmation_declined : Stopped
  confirmation_unavailable : Stopped

-- `_supports_form`
pub supports_form : Ctx → Bool
supports_form ctx = elim ctx.elicitation [ none ↦ false | some e ↦ e.form || not e.url ]

-- `_needs_confirmation`
pub needs_confirmation : String → Kwargs → List String → Bool
unfolding member
needs_confirmation tool kw tools =
    if not (member tool tools) || kw.dry_run
    then false
    else if (tool == "proxmox_backup_restore") && not kw.force
    then false
    else true

-- `{**kwargs, "confirm": True}` for the tool that asks for it.
pub confirmed : String → Kwargs → Kwargs
confirmed tool kw =
    if tool == "beaconmcp_self_update" then record kw { confirm = some true } else kw

-- The end of `confirm_destructive`, once the dialog is needed and can be asked for.
pub ask : Dialog → String → Kwargs → Result Stopped Kwargs
unfolding confirmed
ask failed tool kw = err confirmation_unavailable
ask (answered action yes_do_it) tool kw =
    if not (action == "accept") || not yes_do_it
    then err confirmation_declined
    else ok (confirmed tool kw)

-- `confirm_destructive`
pub confirm_destructive : Option Ctx → String → Kwargs → List String → Result Stopped Kwargs
confirm_destructive none tool kw tools = ok kw
confirm_destructive (some ctx) tool kw tools =
    if not (needs_confirmation tool kw tools)
    then ok kw
    else if not ctx.has_request
    then ok kw
    else if not (supports_form ctx)
    then ok kw
    else ask ctx.dialog tool kw
