-- ===== src/VpnAccount/Provision.antt =====
-- provision.go and patch.go: new accounts, and changes of an account's address and policy. The pool
-- is there; the key pair is an argument.
use hao_vpn.Prelude.{
  ℕ, Bool, true, false, ◌&&◌, ◌||◌, not, List, [], ◌∷◌, ◌++◌, Option, none, some, Text, text_beq,
  text_eq, nat_beq, ltb, leb, any, if◌then◌else◌, length, Result, ok, err, ◌>>◌, reject_if,
}
use hao_vpn.Prelude.Map.{get}
use hao_vpn.Net.{Text6}
use hao_vpn.NetUtil.Strings.{trim_space}
use hao_vpn.NetUtil.Cidr.{validate_ip_in_subnet, validate_no_full_tunnel}
use hao_vpn.IpPool.{allocate, allocate_specific, release, is_allocated}
use hao_vpn.VpnAccount.Tables.{
  Account, fixed, default_ip_lease_sec, has_vpn, get_user_by_id, create_vpn_account,
  update_vpn_fields, increment_policy_ver, delete_user, get_user_vpn_ip_index,
}
use hao_vpn.VpnAccount.{
  Config, Service, AccountError, Outcome, is_fixed, is_dynamic, set_pool, release_ip, take_ip,
  normalize_ipv4, fixed_needs_ip, account_not_found, user_not_found, invalid_username, full_tunnel,
  ip_for_dynamic, invalid_ipv4, not_created, unknown_ip_mode, ip_taken, pool_error, subnet_error,
  on_kick_user,
}

pub record ProvisionInput : Type 0 where
  pub username : Text
  pub ip_mode : Text
  pub ip_lease_sec : ℕ
  pub allowed_ips : List Text
  pub requested_ip : Text
  pub public_key : Text

pub record VpnPatchInput : Type 0 where
  pub allowed_ips : Option (List Text)
  pub ip_mode : Text
  pub ip_lease_sec : ℕ
  pub vpn_ip : Option Text

pub record VpnPatchPlan : Type 0 where
  pub new_ip : Text
  pub new_mode : Text
  pub allowed_ips : List Text
  pub ip_lease_sec : ℕ

-- usernamePattern
abbrev pub is_username_byte : ℕ → Bool
is_username_byte c =
    ((leb b'a' c && leb c b'z') || (leb b'A' c && leb c b'Z'))
    || ((leb b'0' c && leb c b'9') || (nat_beq c b'.' || (nat_beq c b'_' || nat_beq c b'-')))

-- ValidateUsername on a trimmed text.
unfoldable pub is_username : Text → Bool
is_username s =
    (ltb 0 (length s) && leb (length s) 64) && not (any (λ c. not (is_username_byte c)) s)

module _ (t : Text6) (cfg : Config) where
  -- ValidateManualIP; the result is the normal text.
  unfoldable pub validate_manual_ip : Text → ℕ → Service → Result AccountError Text
  unfolding validate_ip_in_subnet normalize_ipv4 is_allocated get_user_vpn_ip_index
  validate_manual_ip ip allow_user s =
      elim (validate_ip_in_subnet t (trim_space ip) cfg.subnet (trim_space cfg.gateway_ip ∷ [])) [
        | err e ↦ err (subnet_error e)
        | ok done ↦ elim (normalize_ipv4 t (trim_space ip)) [
          | none ↦ err invalid_ipv4
          | some norm ↦
              let is_own : Bool = elim (get norm (get_user_vpn_ip_index s.tables)) [
                | none ↦ false
                | some owner ↦ ltb 0 allow_user && nat_beq owner allow_user
              ] in
              if is_allocated norm s.pool && not is_own then err (ip_taken norm) else ok norm
        ]
      ]

  unfoldable pub rebind_fixed_vpn_ip : ℕ → ℕ → Text → Text → Service → Outcome (Unit {0})
  rebind_fixed_vpn_ip now user old_ip new_ip s =
      if text_beq (trim_space new_ip) []
      then (s, [], err fixed_needs_ip)
      else elim (validate_manual_ip (trim_space new_ip) user s) [
        | err e ↦ (s, [], err e)
        | ok norm ↦
            let (p, taken) = allocate_specific t norm user s.pool in
            let (s', calls) = take_ip now norm user (set_pool p s) in
            let (s'', more) = release_ip old_ip s' in
            if text_beq old_ip norm then (s, [], ok tt) else elim taken [
              | err e ↦ (set_pool p s, [], err (pool_error e))
              | ok done ↦ (s'', calls ++ more, ok tt)
            ]
      ]

  -- The modes that ProvisionWebAccount takes.
  unfoldable pub check_provision : ProvisionInput → Result AccountError (Unit {0})
  unfolding is_username validate_no_full_tunnel
  check_provision i = do
    reject_if (not (is_username (trim_space i.username))) invalid_username
    reject_if (not (validate_no_full_tunnel t i.allowed_ips)) full_tunnel
    reject_if (is_dynamic i.ip_mode && not (text_beq (trim_space i.requested_ip) [])) ip_for_dynamic
    reject_if (not (is_fixed i.ip_mode) && not (is_dynamic i.ip_mode)) (unknown_ip_mode i.ip_mode)
    ok tt

  -- The address of a new account, which stands in the pool without an owner if the pool chose it.
  unfoldable pub provision_ip : ProvisionInput → Service → Service × Result AccountError Text
  unfolding validate_manual_ip
  provision_ip i s =
      let requested = trim_space i.requested_ip in
      let (p, got) = allocate t 0 s.pool in
      if not (is_fixed i.ip_mode)
      then (s, ok [])
      else if not (text_beq requested [])
      then (s, validate_manual_ip requested 0 s)
      else (set_pool p s, elim got [ err e ↦ err (pool_error e) | ok ip ↦ ok ip ])

  abbrev pub new_account : ProvisionInput → Text → Account
  new_account i ip = record {
    id = 0;
    username = trim_space i.username;
    enabled = true;
    is_admin = false;
    public_key = i.public_key;
    vpn_ip = ip;
    allowed_ips = i.allowed_ips;
    ip_mode = if text_beq i.ip_mode [] then fixed else i.ip_mode;
    ip_lease_sec = if nat_beq i.ip_lease_sec 0 then default_ip_lease_sec else i.ip_lease_sec;
    policy_ver = 1;
  }

  -- From CreateVPNAccount on.
  unfoldable pub create_with_ip : ℕ → ProvisionInput → Text → Service → Outcome (ℕ × Text)
  unfolding create_vpn_account take_ip delete_user
  create_with_ip now i ip s =
      let unplaced = if text_beq ip [] then s else set_pool (release ip s.pool) s in
      elim (create_vpn_account (new_account i ip) s.tables) [
        | none ↦ (unplaced, [], err not_created)
        | some (tb, id) ↦
            let (p, taken) = allocate_specific t ip id unplaced.pool in
            let placed : Service = record { tables = tb; pool = p } in
            let (s', calls) = take_ip now ip id placed in
            if text_beq ip [] then (record s { tables = tb }, [], ok (id, ip)) else elim taken [
              | err e ↦ (record placed { tables = delete_user id tb }, [], err (pool_error e))
              | ok done ↦ (s', calls, ok (id, ip))
            ]
      ]

  unfoldable pub provision_web_account : ℕ → ProvisionInput → Service → Outcome (ℕ × Text)
  unfolding check_provision provision_ip create_with_ip
  provision_web_account now i s = elim (check_provision i) [
    | err e ↦ (s, [], err e)
    | ok done ↦
        let (s', placed) = provision_ip i s in
        elim placed [ err e ↦ (s', [], err e) | ok ip ↦ create_with_ip now i ip s' ]
  ]

  abbrev pub old_mode_of : Account → Text
  old_mode_of u = if text_beq u.ip_mode [] then fixed else u.ip_mode

  abbrev pub new_mode_of : Account → VpnPatchInput → Text
  new_mode_of u i = if text_beq i.ip_mode [] then old_mode_of u else i.ip_mode

  -- The address that PlanVPNPatch wants.
  unfoldable pub planned_ip : Account → VpnPatchInput → Result AccountError Text
  planned_ip u i =
      let new_mode = new_mode_of u i in
      elim i.vpn_ip [
        | some ip ↦
            if is_dynamic new_mode
            then (if text_beq (trim_space ip) [] then ok [] else err ip_for_dynamic)
            else if text_beq new_mode fixed
            then (if text_beq (trim_space ip) [] then err fixed_needs_ip else ok (trim_space ip))
            else err (unknown_ip_mode new_mode)
        | none ↦
            if text_beq new_mode (old_mode_of u)
            then ok u.vpn_ip
            else if text_beq new_mode fixed && text_beq u.vpn_ip []
            then err fixed_needs_ip
            else if is_dynamic new_mode
            then ok []
            else ok u.vpn_ip
      ]

  -- The last step of PlanVPNPatch: what the pool holds for the account.
  unfoldable pub rebind : ℕ → Account → VpnPatchInput → Text → Service → Outcome (Unit {0})
  rebind now u i new_ip s =
      let was_fixed = text_beq (old_mode_of u) fixed in
      let will_fixed = text_beq (new_mode_of u i) fixed in
      let (s', calls) = release_ip u.vpn_ip s in
      if was_fixed && not will_fixed
      then (s', calls, ok tt)
      else if will_fixed && not was_fixed
      then rebind_fixed_vpn_ip now u.id [] new_ip s
      else if will_fixed && not (text_beq new_ip u.vpn_ip)
      then rebind_fixed_vpn_ip now u.id u.vpn_ip new_ip s
      else (s, [], ok tt)

  unfoldable pub plan_vpn_patch : ℕ → Account → VpnPatchInput → Service → Outcome VpnPatchPlan
  plan_vpn_patch now u i s =
      let lease = if nat_beq i.ip_lease_sec 0 then u.ip_lease_sec else i.ip_lease_sec in
      let allowed : List Text = elim i.allowed_ips [ none ↦ u.allowed_ips | some cidrs ↦ cidrs ] in
      let is_full : Bool = elim i.allowed_ips [
        | none ↦ false
        | some cidrs ↦ not (validate_no_full_tunnel t cidrs)
      ] in
      if not (has_vpn u)
      then (s, [], err account_not_found)
      else if is_full
      then (s, [], err full_tunnel)
      else elim (planned_ip u i) [
        | err e ↦ (s, [], err e)
        | ok new_ip ↦
            let (s', calls, bound) = rebind now u i new_ip s in
            let plan : VpnPatchPlan = record {
              new_ip = new_ip;
              new_mode = new_mode_of u i;
              allowed_ips = allowed;
              ip_lease_sec = lease;
            } in
            elim bound [ err e ↦ (s', calls, err e) | ok done ↦ (s', calls, ok plan) ]
      ]

  unfoldable pub apply_vpn_patch : ℕ → ℕ → VpnPatchInput → Service → Outcome (ℕ × Text × Text)
  apply_vpn_patch now user i s = elim (get_user_by_id user s.tables) [
    | none ↦ (s, [], err user_not_found)
    | some u ↦
        let (s', calls, planned) = plan_vpn_patch now u i s in
        elim planned [
          | err e ↦ (s', calls, err e)
          | ok plan ↦
              let new_ip : Text = elim (normalize_ipv4 t plan.new_ip) [
                | none ↦ plan.new_ip
                | some norm ↦ norm
              ] in
              let (tb, ver) = increment_policy_ver user s'.tables in
              elim ver [
                | none ↦ (record s' { tables = tb }, calls, err user_not_found)
                | some pv ↦ (
                  record s' {
                    tables =
                        update_vpn_fields user new_ip plan.allowed_ips plan.new_mode
                          plan.ip_lease_sec pv tb;
                  },
                  calls ++ (on_kick_user user ∷ []),
                  ok (pv, new_ip, plan.new_mode),
                )
              ]
        ]
  ]
