-- ===== src/VpnAccount/Lease.antt =====
-- Leased addresses: who comes back in time gets the address back.
use hao_vpn.Prelude.{
  ℕ, ◌+◌, ◌<◌, ◌≡◌, ◌≢◌, refl, ap, subst, ◌∙◌, ◌⊎◌, inl, inr, true, false, List, [], ◌∷◌, Option,
  none, some, arith, Text, text_eq, text_beq, text_beq_iff, ok, nat_beq, Bool-cases, All,
  if◌then◌else◌,
}
use hao_vpn.Prelude.Map.{Map, get, put, remove}
use hao_vpn.Net.{Text6}
use hao_vpn.IpPool.{owner, allocate_specific}
use hao_vpn.IpPool.Placed.{release-owner}
use hao_vpn.VpnAccount.Tables.{
  Account, IpAllocation, Database, dynamic_lease, dynamic_session, fixed, get_user_by_id, find_user,
  is_leased, latest_lease, get_leased_ip_for_user, set_ip_lease_until, set_allocations,
  update_allocation, default_ip_lease_sec, release_ip_allocation,
}
use hao_vpn.VpnAccount.{Service, Config, Call, ensure_vpn_ip, release_on_disconnect, release_ip}
use hao_vpn.VpnAccount.Provision.{VpnPatchInput, apply_vpn_patch}
use hao_vpn.VpnAccount.Patch.{Patched, apply_vpn_patch-Patched}

-- A row that does not come before one allocated at a time, for an account.
abbrev pub Earlier : Text → ℕ → ℕ → Text × IpAllocation → Type 0
Earlier ip user at row = (row.0 ≡ ip) ⊎ ((row.1.user_id ≢ user) ⊎ (row.1.allocated_at < at))

abbrev Behind : ℕ → ℕ → Text × IpAllocation → Type 0
Behind user at row = (row.1.user_id ≢ user) ⊎ (row.1.allocated_at < at)

remove-Behind :
    (ip : Text) (user at : ℕ) (rows : Map Text IpAllocation)
    → All (Earlier ip user at) rows
    → All (Behind user at) (remove ip rows)
unfolding remove
remove-Behind ip user at [] h = tt
remove-Behind ip user at ((k, a) ∷ rows) h = elim (Bool-cases (text_beq k ip)) [
  | inl e ↦ rw e (remove-Behind ip user at rows h.1)
  | inr e ↦ rw e (ground (arith, e, h.0, text_beq_iff k ip), remove-Behind ip user at rows h.1)
]

abbrev Older : ℕ → Option (Text × ℕ) → Type 0
Older at none = Unit
Older at (some (ip, n)) = n < at

latest-Behind :
    (now user at : ℕ) (rows : Map Text IpAllocation)
    → All (Behind user at) rows
    → Older at (latest_lease now user rows)
unfolding latest_lease
latest-Behind now user at [] h = tt
latest-Behind now user at ((k, a) ∷ rows) h =
    ground (arith, h.0, latest-Behind now user at rows h.1)

latest_lease-head :
    (now user : ℕ) (ip : Text) (a : IpAllocation) (rows : Map Text IpAllocation)
    → a.user_id ≡ user
    → is_leased now a ≡ true
    → All (Behind user a.allocated_at) rows
    → latest_lease now user ((ip, a) ∷ rows) ≡ some (ip, a.allocated_at)
unfolding latest_lease
latest_lease-head now user ip a rows mine leased h =
    ground (arith, mine, leased, latest-Behind now user a.allocated_at rows h)

-- The lease time of an account.
abbrev pub lease_of : Account → ℕ
lease_of u = if nat_beq u.ip_lease_sec 0 then default_ip_lease_sec else u.ip_lease_sec

get_leased :
    (now user : ℕ) (ip : Text) (at : ℕ) (tb : Database)
    → latest_lease now user tb.ip_allocations ≡ some (ip, at)
    → get_leased_ip_for_user now user tb ≡ some ip
unfolding get_leased_ip_for_user
get_leased now user ip at tb h = ground (arith, h)

leased_again :
    (now later user : ℕ) (ip : Text) (u : Account) (a : IpAllocation) (s : Service)
    → get_user_by_id user s.tables ≡ some u
    → ip ≢ []
    → get ip s.tables.ip_allocations ≡ some a
    → a.user_id ≡ user
    → a.is_released ≡ false
    → All (Earlier ip user a.allocated_at) s.tables.ip_allocations
    → later < now + lease_of u
    → get_leased_ip_for_user later user (release_on_disconnect now user ip dynamic_lease s).0.tables
      ≡ some ip
leased_again now later user ip u a s found real row mine kept order soon =
    let a' = record a { lease_until = some (now + lease_of u) } in
    let rows = remove ip s.tables.ip_allocations in
    let head : latest_lease later user ((ip, a') ∷ rows) ≡ some (ip, a.allocated_at) =
      latest_lease-head later user ip a' rows mine (ground (arith, kept, soon))
        (remove-Behind ip user a.allocated_at s.tables.ip_allocations order) in
    let after : (release_on_disconnect now user ip dynamic_lease s).0.tables.ip_allocations
        ≡ (ip, a') ∷ rows =
      unfold release_on_disconnect set_ip_lease_until set_allocations update_allocation put in
      ground (arith, found, real, row, text_beq_iff ip []) in
    get_leased later user ip a.allocated_at
      (release_on_disconnect now user ip dynamic_lease s).0.tables
      (ap (latest_lease later user) after ∙ head)

release_on_disconnect-pool :
    (now user : ℕ) (ip mode : Text) (s : Service)
    → text_beq mode dynamic_session ≡ false
    → (release_on_disconnect now user ip mode s).0.pool ≡ s.pool
unfolding release_on_disconnect
release_on_disconnect-pool now user ip mode s h = ground (arith, h)

-- An account with a leased address that disconnects and comes back before its lease time is over
-- gets the same address, if that was its latest allocation and the pool still lets it have it.
pub release_on_disconnect-ensure :
    (t : Text6) (now later user : ℕ) (ip : Text) (u : Account) (a : IpAllocation) (s : Service)
    → get_user_by_id user s.tables ≡ some u
    → u.id ≡ user
    → u.ip_mode ≡ dynamic_lease
    → ip ≢ []
    → get ip s.tables.ip_allocations ≡ some a
    → a.user_id ≡ user
    → a.is_released ≡ false
    → All (Earlier ip user a.allocated_at) s.tables.ip_allocations
    → (allocate_specific t ip user s.pool).1 ≡ ok tt
    → later < now + lease_of u
    → (ensure_vpn_ip t later u (release_on_disconnect now user ip dynamic_lease s).0).2 ≡ ok ip
release_on_disconnect-ensure t now later user ip u a s found same mode real row mine kept order free
      soon =
    let s' = (release_on_disconnect now user ip dynamic_lease s).0 in
    let leased : get_leased_ip_for_user later user s'.tables ≡ some ip =
      leased_again now later user ip u a s found real row mine kept order soon in
    unfold ensure_vpn_ip in
    ground (
      arith,
      mode,
      same,
      leased,
      free,
      real,
      text_beq_iff ip [],
      release_on_disconnect-pool now user ip dynamic_lease s refl,
    )

release_on_disconnect-users :
    (now user : ℕ) (ip : Text) (s : Service)
    → (release_on_disconnect now user ip dynamic_session s).0.tables.users ≡ s.tables.users
unfolding release_on_disconnect release_ip release_ip_allocation set_allocations
release_on_disconnect-users now user ip s = ground arith

released-owner :
    (now user : ℕ) (ip : Text) (s : Service)
    → ip ≢ []
    → owner ip (release_on_disconnect now user ip dynamic_session s).0.pool ≡ 0
unfolding release_on_disconnect release_ip
released-owner now user ip s real =
    ground (arith, real, text_beq_iff ip [], release-owner ip ip s.pool, text_beq_iff ip ip)

kept_fixed :
    (t : Text6) (now : ℕ) (v : Account) (ip : Text) (s : Service)
    → v.vpn_ip ≡ ip
    → v.ip_mode ≡ fixed
    → ip ≢ []
    → ensure_vpn_ip t now v s ≡ (s, [], ok ip)
unfolding ensure_vpn_ip
kept_fixed t now v ip s its_ip its_mode real =
    ground (arith, its_ip, its_mode, real, text_beq_iff v.vpn_ip [])

-- After ApplyVPNPatch gave an account a fixed address, the end of a session that had the same
-- address in dynamic_session mode frees the address in the pool, while the account keeps it and
-- EnsureVPNIP goes on returning it without taking it.
pub apply_vpn_patch-released :
    (t : Text6) (cfg : Config) (now later user pv : ℕ) (i : VpnPatchInput) (ip : Text) (u : Account)
    (s s' : Service) (calls : List Call)
    → get_user_by_id user s.tables ≡ some u
    → apply_vpn_patch t cfg now user i s ≡ (s', calls, ok (pv, ip, fixed))
    → ip ≢ []
    → let s'' = (release_on_disconnect later user ip dynamic_session s').0 in
      (owner ip s''.pool ≡ 0)
      × ((v : Account) × (get_user_by_id user s''.tables ≡ some v)
          × (v.vpn_ip ≡ ip)
          × (v.ip_mode ≡ fixed)
          × (ensure_vpn_ip t later v s'' ≡ (s'', [], ok ip)))
unfolding get_user_by_id
apply_vpn_patch-released t cfg now later user pv i ip u s s' calls found done real =
    let patched : Patched t cfg now user u s (s', calls, ok (pv, ip, fixed)) =
      subst (Patched t cfg now user u s) done
        (apply_vpn_patch-Patched t cfg now user i u s found) in
    let (v, stored, its_ip, its_mode, _, _) = patched.0 in
    (
      released-owner later user ip s' real,
      (
        v,
        ap (find_user user) (release_on_disconnect-users later user ip s') ∙ stored,
        its_ip,
        its_mode,
        kept_fixed t later v ip (release_on_disconnect later user ip dynamic_session s').0 its_ip
            its_mode real,
      ),
    )
