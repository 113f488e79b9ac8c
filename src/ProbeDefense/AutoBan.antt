-- ===== src/ProbeDefense/AutoBan.antt =====
-- Rejections of one address up to its automatic ban.
use hao_vpn.Prelude.{
  ℕ, suc, ◌+◌, ◌*◌, ◌≤◌, ◌<◌, true, ◌≡◌, ◌∙◌, refl, sym, subst, ap, List, [], ◌∷◌, none, some,
  is_some, Text, text_eq, codes, arith, All, length,
}
use hao_vpn.Prelude.Int.{pos}
use hao_vpn.Prelude.Map.{get, get-put_self}
use hao_vpn.Net.{Text6}
use hao_vpn.ProbeDefense.Tables.{
  second, to_second, IpBlock, Store, count_events, get_active_ip_block, upsert_ip_block,
  disable_ip_block,
}
use hao_vpn.ProbeDefense.Exempt.{record_event-keeps}
use hao_vpn.ProbeDefense.Bans.{unban}
use hao_vpn.ProbeDefense.Counting.{
  IsCounting, Counted, rejected, rejected-Counted, record_reject-below, record_reject-at,
  Counted-since, from_none, record_reject-Counted,
}
use hao_vpn.ProbeDefense.Guard.{
  is_blocked_raw, Config, Guard, window_of, threshold_of, record_reject, auto_block,
  resolve_ban_expiry_time,
}

-- The check for a ban reads the table of bans only.
pub is_blocked_raw-same :
    (now : ℕ) (ip : Text) (g : Guard) (st : Store)
    → g.store.ip_blocks ≡ st.ip_blocks
    → is_blocked_raw now ip g ≡ is_some (get_active_ip_block now ip st)
unfolding is_blocked_raw get_active_ip_block
is_blocked_raw-same now ip g st e = rw e refl

zero_add : (k : ℕ) → 0 + k ≡ k
zero_add k = omega arith

auto_block-enabled :
    (now : ℕ) (signature : Text) (cfg : Config) → (auto_block now signature cfg).enabled ≡ true
unfolding auto_block
auto_block-enabled now signature cfg = refl

auto_block-expires :
    (now d : ℕ) (signature : Text) (cfg : Config)
    → cfg.ban_duration_sec ≡ pos (suc d)
    → (auto_block now signature cfg).expires_at ≡ some (now + suc d * second)
unfolding auto_block resolve_ban_expiry_time
auto_block-expires now d signature cfg e = ground (arith, e)

module _ (t6 : Text6) (ip port phase signature : Text) where
  -- Rejections at the times of a list.
  unfoldable pub rejects : List ℕ → Guard → Guard
  unfolding record_reject
  rejects [] g = g
  rejects (now ∷ times) g = rejects times (record_reject t6 now ip port phase signature g)

  -- What rejections below the threshold leave.
  Below : ℕ → ℕ → Guard → Guard → Type 0
  Below base k g g' =
      IsCounting t6 ip signature g'
      × Counted base ip k g'
      × (g'.cfg ≡ g.cfg)
      × (g'.store.ip_blocks ≡ g.store.ip_blocks)
      × (g'.ban_exempt_ips ≡ g.ban_exempt_ips)

  rejects-Below :
      (base k : ℕ) (times : List ℕ) (g : Guard)
      → IsCounting t6 ip signature g
      → Counted base ip k g
      → All (λ now. (base ≤ now) × (now ≤ base + window_of g.cfg)) times
      → k + length times < threshold_of g.cfg
      → Below base (k + length times) g (rejects times g)
  unfolding rejects Below rejected
  rejects-Below base k [] g h counted within lt =
      let same : k + length {A = ℕ} [] ≡ k = omega arith in
      (h, subst (λ n. Counted base ip n g) (sym same) counted, refl, refl, refl)
  rejects-Below base k (now ∷ times) g h counted ((low, high), rest) lt =
      let n : suc k + length times ≡ k + length (now ∷ times) = omega arith in
      let once : suc k < threshold_of g.cfg = omega (arith, lt, n) in
      let before = Counted-since t6 ip port phase signature base k now g counted high in
      let is_recorded = record_reject-below t6 ip port phase signature now k g h before once in
      let later : Below base (suc k + length times) (rejected t6 ip port phase signature now g)
          (rejects times (rejected t6 ip port phase signature now g)) =
        rejects-Below base (suc k) times (rejected t6 ip port phase signature now g) h
          (rejected-Counted t6 ip port phase signature base now k g h low counted) rest
          (omega (arith, lt, n)) in
      subst (λ x. Below base (k + length (now ∷ times)) g (rejects times x)) (sym is_recorded)
        (
          later.0,
          subst (λ m. Counted base ip m (rejects times (rejected t6 ip port phase signature now g)))
              n later.1,
          later.2,
          later.3 ∙ (record_event-keeps now ip port phase signature (codes "rejected") g).2,
          later.4,
        )

  -- A written ban holds until its end.
  upsert-blocked :
      (now t : ℕ) (b : IpBlock) (st : Store)
      → b.enabled ≡ true
      → b.expires_at ≡ some t
      → now ≤ to_second t
      → is_some (get_active_ip_block now ip (upsert_ip_block ip b st)) ≡ true
  unfolding get_active_ip_block upsert_ip_block
  upsert-blocked now t b st on until le =
      let hits : ℕ = elim (get ip st.ip_blocks) [ none ↦ b.hits | some old ↦ old.hits ] in
      let row = record b { hits = hits; expires_at = some (to_second t) } in
      let found : get ip (upsert_ip_block ip b st).ip_blocks ≡ some row =
        rw (until, upsert_ip_block) (get-put_self ip row st.ip_blocks) in
      ground (arith, found, on, le)

  -- Rejections of an address within the window, one less than the threshold, change no ban if it
  -- had none counted before, the guard records and bans, and neither the address nor the signature
  -- is excepted; the next one within the window bans the address for the set time.
  pub rejects-threshold :
      (base last now d : ℕ) (times : List ℕ) (g : Guard)
      → IsCounting t6 ip signature g
      → count_events ip 0 g.cfg.ignore_signatures_for_ban g.store.security_events ≡ 0
      → All (λ t. (base ≤ t) × (t ≤ base + window_of g.cfg)) times
      → suc (length times) ≡ threshold_of g.cfg
      → (base ≤ last) × (last ≤ base + window_of g.cfg)
      → g.cfg.ban_duration_sec ≡ pos (suc d)
      → now ≤ to_second (last + suc d * second)
      → ((rejects times g).store.ip_blocks ≡ g.store.ip_blocks)
        × (is_blocked_raw now ip (record_reject t6 last ip port phase signature (rejects times g))
            ≡ true)
  unfolding Below
  rejects-threshold base last now d times g h none_yet within n lasts dur until =
      let k = length times in
      let start : Counted base ip 0 g = from_none t6 ip port phase signature base g none_yet in
      let below = rejects-Below base 0 times g h start within (omega (arith, n)) in
      let g' = rejects times g in
      let counted = subst (λ m. Counted base ip m g') (zero_add k) below.1 in
      let cfg : g'.cfg ≡ g.cfg = below.2 in
      let at =
        record_reject-at t6 ip port phase signature last k g' below.0
          (Counted-since t6 ip port phase signature base k last g' counted
            (subst (λ c. last ≤ base + window_of c) (sym cfg) lasts.1))
          (subst (λ c. threshold_of c ≤ suc k) (sym cfg) (omega (arith, n))) in
      let ends =
        auto_block-expires last d signature g'.cfg (ap (λ c. c.ban_duration_sec) cfg ∙ dur) in
      (
        below.3,
        is_blocked_raw-same now ip (record_reject t6 last ip port phase signature g')
              (upsert_ip_block ip (auto_block last signature g'.cfg)
                (rejected t6 ip port phase signature last g').store)
              at
            ∙ upsert-blocked now (last + suc d * second) (auto_block last signature g'.cfg)
                (rejected t6 ip port phase signature last g').store
                (auto_block-enabled last signature g'.cfg) ends until,
      )

  -- After an automatic ban was lifted, one more rejection within the window of the old ones bans
  -- the address again.
  pub unban-rebanned :
      (base last next now d : ℕ) (times : List ℕ) (g : Guard)
      → IsCounting t6 ip signature g
      → count_events ip 0 g.cfg.ignore_signatures_for_ban g.store.security_events ≡ 0
      → All (λ t. (base ≤ t) × (t ≤ base + window_of g.cfg)) times
      → suc (length times) ≡ threshold_of g.cfg
      → base ≤ last
      → next ≤ base + window_of g.cfg
      → g.cfg.ban_duration_sec ≡ pos (suc d)
      → now ≤ to_second (next + suc d * second)
      → let lifted = unban ip (record_reject t6 last ip port phase signature (rejects times g)) in
        is_blocked_raw now ip (record_reject t6 next ip port phase signature lifted) ≡ true
  unfolding Below unban disable_ip_block record_reject rejects Counted
  unban-rebanned base last next now d times g h none_yet within n low high dur until =
      let k = length times in
      let below =
        rejects-Below base 0 times g h (from_none t6 ip port phase signature base g none_yet) within
          (omega (arith, n)) in
      let g' = rejects times g in
      let counted = subst (λ m. Counted base ip m g') (zero_add k) below.1 in
      let (h', more, cfg') =
        record_reject-Counted t6 ip port phase signature base last k g' below.0 low counted in
      let lifted = unban ip (record_reject t6 last ip port phase signature g') in
      let cfg : lifted.cfg ≡ g.cfg = cfg' ∙ below.2 in
      let again : Counted base ip (suc k) lifted = more in
      let at =
        record_reject-at t6 ip port phase signature next (suc k) lifted h'
          (Counted-since t6 ip port phase signature base (suc k) next lifted again
            (subst (λ c. next ≤ base + window_of c) (sym cfg) high))
          (subst (λ c. threshold_of c ≤ suc (suc k)) (sym cfg) (omega (arith, n))) in
      let ends =
        auto_block-expires next d signature lifted.cfg (ap (λ c. c.ban_duration_sec) cfg ∙ dur) in
      is_blocked_raw-same now ip (record_reject t6 next ip port phase signature lifted)
        (upsert_ip_block ip (auto_block next signature lifted.cfg)
          (rejected t6 ip port phase signature next lifted).store)
        at
      ∙ upsert-blocked now (next + suc d * second) (auto_block next signature lifted.cfg)
          (rejected t6 ip port phase signature next lifted).store
          (auto_block-enabled next signature lifted.cfg) ends until
