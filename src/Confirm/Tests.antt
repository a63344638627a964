-- ===== src/Confirm/Tests.antt =====
-- The confirmation of confirm.py at concrete inputs.
use beacon_mcp.Base.{◌≡◌, ◌↔◌, ◌⊎◌, true, false, none, some, ok}
use beacon_mcp.Confirm.{Kwargs, Ctx, answered, default_confirm_tools, confirm_destructive}
use beacon_mcp.Confirm.Destructive.{IsGuarded, CanAsk, RunsWith, destructive_iff}

abbrev no_dry_run : Kwargs
no_dry_run = record { dry_run = false; force = true; confirm = none }

abbrev confirmed_run : Kwargs
confirmed_run = record no_dry_run { confirm = some true }

abbrev user : Ctx
user = record {
  has_request = true;
  elicitation = some (record { form = true; url = false });
  dialog = answered "accept" true;
}

destructive_iff_example :
    (confirm_destructive (some user) "beaconmcp_self_update" no_dry_run default_confirm_tools
      ≡ ok confirmed_run)
    ↔ (((¬ (IsGuarded "beaconmcp_self_update" no_dry_run default_confirm_tools × CanAsk user))
          × (confirmed_run ≡ no_dry_run))
        ⊎ (IsGuarded "beaconmcp_self_update" no_dry_run default_confirm_tools
            × CanAsk user
            × (user.dialog ≡ answered "accept" true)
            × RunsWith "beaconmcp_self_update" no_dry_run confirmed_run))
destructive_iff_example =
    destructive_iff user "beaconmcp_self_update" no_dry_run confirmed_run default_confirm_tools
