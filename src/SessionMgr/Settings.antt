-- ===== src/SessionMgr/Settings.antt =====
-- manager.go: New and the setters.
use hao_vpn.Prelude.{
  ℕ, Bool, true, false, ◌||◌, [], Option, none, some, text_beq, text_eq, if◌then◌else◌, Text,
}
use hao_vpn.Prelude.Int.{ℤ, pos, ltb_ℤ, pos_part}
use hao_vpn.Prelude.Map.{put, remove}
use hao_vpn.SessionMgr.{Manager, Store, reject_second, kick_previous}

module _ {S : Type 0} where
  unfoldable pub new : Option Store → Manager S
  new store = record {
    store = store;
    heap = [];
    next_ref = 0;
    sessions = [];
    by_ip = [];
    vpn_index = [];
    via_index = [];
    allow_all_peers = false;
    session_policy = reject_second;
    reconnect_grace = 0;
    has_kick_handler = false;
    has_disconnect_handler = false;
    has_flows = true;
  }

  unfoldable pub set_allow_all_vpn_peers : Bool → Manager S → Manager S
  set_allow_all_vpn_peers allow m = record m { allow_all_peers = allow }

  unfoldable pub set_reconnect_grace : ℤ → Manager S → Manager S
  set_reconnect_grace d m = record m { reconnect_grace = if ltb_ℤ d (pos 0) then 0 else pos_part d }

  unfoldable pub set_session_policy : Text → Manager S → Manager S
  set_session_policy policy m =
      if text_beq policy reject_second || text_beq policy kick_previous
      then record m { session_policy = policy }
      else if text_beq policy []
      then record m { session_policy = reject_second }
      else m

  -- The error of a failed read leaves the manager as it was.
  unfoldable pub load_vpn_ip_index : Manager S → Manager S
  load_vpn_ip_index m = elim m.store [
    | none ↦ m
    | some st ↦ elim st.user_vpn_ips [ none ↦ m | some idx ↦ record m { vpn_index = idx } ]
  ]

  unfoldable pub register_vpn_ip : Text → ℕ → Manager S → Manager S
  register_vpn_ip vpn_ip user m = record m { vpn_index = put vpn_ip user m.vpn_index }

  unfoldable pub unregister_vpn_ip : Text → Manager S → Manager S
  unregister_vpn_ip vpn_ip m = record m { vpn_index = remove vpn_ip m.vpn_index }

  -- Whether a handler is set; what it does is not the manager's.
  unfoldable pub set_disconnect_handler : Bool → Manager S → Manager S
  set_disconnect_handler is_set m = record m { has_disconnect_handler = is_set }

  unfoldable pub set_kick_handler : Bool → Manager S → Manager S
  set_kick_handler is_set m = record m { has_kick_handler = is_set }
