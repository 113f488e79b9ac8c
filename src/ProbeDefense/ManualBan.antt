-- ===== src/ProbeDefense/ManualBan.antt =====
-- Manual bans and their end, and what a lifted ban leaves behind.
use hao_vpn.Prelude.{
  ℕ, ◌≡◌, ◌∙◌, refl, ap, Bool, true, false, not, Option, none, some, is_some, Text, text_eq, arith,
  ltb, ok, Result-cases, Option-cases, inl, inr,
}
use hao_vpn.Prelude.Int.{ℤ}
use hao_vpn.Prelude.Map.{get, get-put_self}
use hao_vpn.Net.{Text6}
use hao_vpn.NetUtil.Strings.{trim_space}
use hao_vpn.ProbeDefense.Tables.{
  to_second, Store, IpBlock, get_active_ip_block, upsert_ip_block, disable_ip_block,
  insert_security_event,
}
use hao_vpn.ProbeDefense.Guard.{
  Guard, is_ban_exempt, is_blocked_raw, record_event, resolve_ban_expiry_time,
}
use hao_vpn.ProbeDefense.AutoBan.{is_blocked_raw-same}
use hao_vpn.ProbeDefense.Bans.{manual_block, manual_ban_store, manual_ban, unban}

-- Whether a ban that ends then is in force.
abbrev pub lasts : ℕ → Option ℕ → Bool
lasts now none = true
lasts now (some t) = not (ltb (to_second t) now)

upsert-lasts :
    (now : ℕ) (ip : Text) (b : IpBlock) (st : Store)
    → b.enabled ≡ true
    → is_some (get_active_ip_block now ip (upsert_ip_block ip b st)) ≡ lasts now b.expires_at
unfolding get_active_ip_block upsert_ip_block
upsert-lasts now ip b st on =
    let hits : ℕ = elim (get ip st.ip_blocks) [ none ↦ b.hits | some old ↦ old.hits ] in
    elim (Option-cases b.expires_at) [
      | inl e ↦
          let row : IpBlock = record b { hits = hits; expires_at = none } in
          let found : get ip (upsert_ip_block ip b st).ip_blocks ≡ some row =
            rw (e, upsert_ip_block) (get-put_self ip row st.ip_blocks) in
          ground (arith, found, on, e)
      | inr (t, e) ↦
          let row : IpBlock = record b { hits = hits; expires_at = some (to_second t) } in
          let found : get ip (upsert_ip_block ip b st).ip_blocks ≡ some row =
            rw (e, upsert_ip_block) (get-put_self ip row st.ip_blocks) in
          ground (arith, found, on, e)
    ]

-- A ban that was lifted is not in force.
disable-lifted :
    (now : ℕ) (ip : Text) (st : Store)
    → is_some (get_active_ip_block now ip (disable_ip_block ip st)) ≡ false
unfolding get_active_ip_block disable_ip_block
disable-lifted now ip st = elim (Option-cases (get ip st.ip_blocks)) [
  | inl e ↦ ground (arith, e)
  | inr (b, e) ↦
      let row : IpBlock = record b { enabled = false } in
      let found = get-put_self ip row st.ip_blocks in ground (arith, e, found)
]

manual_ban_store-ok :
    (t6 : Text6) (now : ℕ) (is_exempt : Text → Bool) (ip reason : Text) (duration default : ℤ)
    (st st' : Store)
    → manual_ban_store t6 now is_exempt ip reason duration default st ≡ ok st'
    → (is_exempt (trim_space ip) ≡ false)
      × (st' ≡ upsert_ip_block (trim_space ip) (manual_block now reason duration default) st)
unfolding manual_ban_store
manual_ban_store-ok t6 now is_exempt ip reason duration default st st' h = ground (arith, h)

manual_ban-ok :
    (t6 : Text6) (now : ℕ) (ip reason : Text) (duration : ℤ) (g g' : Guard)
    → manual_ban t6 now ip reason duration g ≡ (g', ok tt)
    → (is_ban_exempt t6 (trim_space ip) g ≡ false)
      × (g'.store.ip_blocks
          ≡ (upsert_ip_block
              (trim_space ip)
              (manual_block now reason duration g.cfg.ban_duration_sec)
              g.store).ip_blocks)
unfolding manual_ban record_event insert_security_event
manual_ban-ok t6 now ip reason duration g g' h =
    let result =
      manual_ban_store t6 now (λ s. is_ban_exempt t6 s g) ip reason duration g.cfg.ban_duration_sec
        g.store in
    elim (Result-cases result) [
      | inr (x, e) ↦ ground (arith, h, e)
      | inl (st, e) ↦
          let stored =
            manual_ban_store-ok t6 now (λ s. is_ban_exempt t6 s g) ip reason duration
              g.cfg.ban_duration_sec g.store st e in
          (stored.0, ground (arith, h, e, stored.1))
    ]

block-lasts :
    (now : ℕ) (reason : Text) (duration default : ℤ)
    → ((manual_block now reason duration default).enabled ≡ true)
      × ((manual_block now reason duration default).expires_at
          ≡ resolve_ban_expiry_time now duration default)
unfolding manual_block
block-lasts now reason duration default = (refl, refl)

-- A manual ban that is accepted is of an address that is not exempt, is in force until its end to
-- the second, or for good if it has none, and is lifted by Unban.
pub manual_ban-lasts :
    (t6 : Text6) (now later : ℕ) (ip reason : Text) (duration : ℤ) (g g' : Guard)
    → manual_ban t6 now ip reason duration g ≡ (g', ok tt)
    → (is_ban_exempt t6 (trim_space ip) g ≡ false)
      × (is_blocked_raw later (trim_space ip) g'
          ≡ lasts later (resolve_ban_expiry_time now duration g.cfg.ban_duration_sec))
      × (is_blocked_raw later (trim_space ip) (unban (trim_space ip) g') ≡ false)
unfolding is_blocked_raw unban
manual_ban-lasts t6 now later ip reason duration g g' h =
    let block = manual_block now reason duration g.cfg.ban_duration_sec in
    let banned = manual_ban-ok t6 now ip reason duration g g' h in
    let ends = block-lasts now reason duration g.cfg.ban_duration_sec in
    (
      banned.0,
      is_blocked_raw-same later (trim_space ip) g' (upsert_ip_block (trim_space ip) block g.store)
            banned.1
          ∙ upsert-lasts later (trim_space ip) block g.store ends.0
          ∙ ap (lasts later) ends.1,
      disable-lifted later (trim_space ip) g'.store,
    )
