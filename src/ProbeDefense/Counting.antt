-- ===== src/ProbeDefense/Counting.antt =====
-- Counted rejections of one address.
use hao_vpn.Prelude.{
  ℕ, suc, ◌+◌, ◌-◌, ◌≤◌, ◌<◌, true, false, ◌&&◌, not, ◌≡◌, ◌∙◌, refl, sym, subst, ap, List, [], ◌∷◌,
  Text, text_eq, text_beq, text_beq_iff, codes, arith, any, ltb, inl, inr, ◌⊎◌,
}
use hao_vpn.Net.{Text6}
use hao_vpn.NetUtil.Strings.{trim_space}
use hao_vpn.ProbeDefense.Tables.{
  to_second, SecurityEvent, insert_security_event, count_events, count_security_events_since,
  upsert_ip_block,
}
use hao_vpn.ProbeDefense.Guard.{
  with_store, Guard, is_spared, is_ignored, window_of, threshold_of, skips_ban, record_event,
  maybe_auto_ban, record_reject, auto_block,
}

-- Bans are counted and set for such an address and signature.
abbrev pub IsCounting : Text6 → Text → Text → Guard → Type 0
IsCounting t6 ip signature g =
    (g.cfg.enabled ≡ true)
    × (g.cfg.record_events ≡ true)
    × (g.cfg.auto_ban ≡ true)
    × (text_beq ip [] ≡ false)
    × (is_spared t6 ip g ≡ false)
    × (is_ignored signature g.cfg ≡ false)

-- A signature that is not ignored is not excluded from the count.
not_ignored :
    (signature : Text) (ignored : List Text)
    → any (λ ign. text_beq signature (trim_space ign)) ignored ≡ false
    → any (λ sig. not (text_beq (trim_space sig) []) && text_beq signature (trim_space sig)) ignored
      ≡ false
not_ignored signature [] h = refl
not_ignored signature (ign ∷ ignored) h = ground (arith, h, not_ignored signature ignored)

to_second-le : (s t : ℕ) → s ≤ t → to_second s ≤ to_second t
to_second-le s t h = omega (arith, h)

-- A rejection that is recorded counts from every earlier time on.
count-rejected :
    (now s : ℕ) (ip port phase signature : Text) (g : Guard)
    → g.cfg.record_events ≡ true
    → is_ignored signature g.cfg ≡ false
    → s ≤ now
    → count_events ip s g.cfg.ignore_signatures_for_ban
        (record_event now ip port phase signature (codes "rejected") g).store.security_events
      ≡ suc (count_events ip s g.cfg.ignore_signatures_for_ban g.store.security_events)
unfolding record_event insert_security_event count_events is_ignored
count-rejected now s ip port phase signature g on ign le =
    let free = not_ignored signature g.cfg.ignore_signatures_for_ban ign in
    ground (arith, on, free, to_second-le s now le, text_beq_iff ip ip)

count-banned :
    (now s : ℕ) (ip i port phase signature : Text) (ignored : List Text) (g : Guard)
    → count_events i s ignored
        (record_event now ip port phase signature (codes "auto_banned") g).store.security_events
      ≡ count_events i s ignored g.store.security_events
unfolding record_event insert_security_event count_events
count-banned now s ip i port phase signature ignored g = ground arith

count-later :
    (ip : Text) (s : ℕ) (ignored : List Text) (events : List SecurityEvent)
    → count_events ip s ignored events ≤ count_events ip 0 ignored events
unfolding count_events
count-later ip s ignored [] = omega arith
count-later ip s ignored (e ∷ events) =
    ground (arith, count-later ip s ignored events, to_second-le 0 s (omega arith))

-- So many counted rejections from every time up to `base` on.
unfoldable pub Counted : ℕ → Text → ℕ → Guard → Type 0
Counted base ip k g =
    (s : ℕ)
    → s ≤ base
    → count_events ip s g.cfg.ignore_signatures_for_ban g.store.security_events ≡ k

module _ (t6 : Text6) (ip port phase signature : Text) where
  unfoldable pub rejected : ℕ → Guard → Guard
  unfolding record_event
  rejected now = record_event now ip port phase signature (codes "rejected")

  pub skips_ban-rejected :
      (now : ℕ) (g : Guard)
      → IsCounting t6 ip signature g
      → skips_ban t6 now ip signature (rejected now g)
        ≡ ltb
            (suc (
              count_events ip
                (now - window_of g.cfg)
                g.cfg.ignore_signatures_for_ban
                g.store.security_events))
            (threshold_of g.cfg)
  unfolding skips_ban count_security_events_since rejected is_ignored
  skips_ban-rejected now g h =
      let n =
        count-rejected now (now - window_of g.cfg) ip port phase signature g h.1 h.5
          (omega arith) in
      let spared : is_spared t6 ip (rejected now g) ≡ false = h.4 in ground (arith, h, n, spared)

  -- Below the threshold a rejection is only recorded.
  pub record_reject-below :
      (now k : ℕ) (g : Guard)
      → IsCounting t6 ip signature g
      → Counted (now - window_of g.cfg) ip k g
      → suc k < threshold_of g.cfg
      → record_reject t6 now ip port phase signature g ≡ rejected now g
  unfolding record_reject maybe_auto_ban rejected Counted
  record_reject-below now k g h counted lt =
      let n = counted (now - window_of g.cfg) (omega arith) in
      ground (arith, h.0, skips_ban-rejected now g h, n)

  pub record_reject-at :
      (now k : ℕ) (g : Guard)
      → IsCounting t6 ip signature g
      → Counted (now - window_of g.cfg) ip k g
      → threshold_of g.cfg ≤ suc k
      → (record_reject t6 now ip port phase signature g).store.ip_blocks
        ≡ (upsert_ip_block ip (auto_block now signature g.cfg) (rejected now g).store).ip_blocks
  unfolding record_reject maybe_auto_ban rejected Counted record_event insert_security_event
  record_reject-at now k g h counted le =
      let n = counted (now - window_of g.cfg) (omega arith) in
      ground (arith, h.0, skips_ban-rejected now g h, n)

  pub rejected-Counted :
      (base now k : ℕ) (g : Guard)
      → IsCounting t6 ip signature g
      → base ≤ now
      → Counted base ip k g
      → Counted base ip (suc k) (rejected now g)
  unfolding Counted rejected
  rejected-Counted base now k g h le counted s small =
      count-rejected now s ip port phase signature g h.1 h.5 (omega (arith, small, le))
      ∙ ap suc (counted s small)

  pub Counted-since :
      (base k now : ℕ) (g : Guard)
      → Counted base ip k g
      → now ≤ base + window_of g.cfg
      → Counted (now - window_of g.cfg) ip k g
  unfolding Counted
  Counted-since base k now g counted high s le = counted s (omega (arith, high, le))

  pub from_none :
      (base : ℕ) (g : Guard)
      → count_events ip 0 g.cfg.ignore_signatures_for_ban g.store.security_events ≡ 0
      → Counted base ip 0 g
  unfolding Counted
  from_none base g h s le =
      let fewer = count-later ip s g.cfg.ignore_signatures_for_ban g.store.security_events in
      omega (arith, fewer, h)

  -- The guard after an automatic ban.
  banned : ℕ → Guard → Guard
  unfolding record_event rejected
  banned now g =
      record_event now ip [] (codes "tcp_accept") signature (codes "auto_banned")
        (with_store (upsert_ip_block ip (auto_block now signature g.cfg)) (rejected now g))

  record_reject-cases :
      (now : ℕ) (g : Guard)
      → (record_reject t6 now ip port phase signature g ≡ rejected now g)
        ⊎ (record_reject t6 now ip port phase signature g ≡ banned now g)
  unfolding record_reject maybe_auto_ban rejected banned
  record_reject-cases now g = ground arith

  -- A rejection counts, whether or not it leads to a ban.
  pub record_reject-Counted :
      (base now k : ℕ) (g : Guard)
      → IsCounting t6 ip signature g
      → base ≤ now
      → Counted base ip k g
      → IsCounting t6 ip signature (record_reject t6 now ip port phase signature g)
        × Counted base ip (suc k) (record_reject t6 now ip port phase signature g)
        × ((record_reject t6 now ip port phase signature g).cfg ≡ g.cfg)
  unfolding rejected banned Counted is_spared count_events upsert_ip_block
  record_reject-Counted base now k g h le counted =
      let more = rejected-Counted base now k g h le counted in
      let stored =
        with_store (upsert_ip_block ip (auto_block now signature g.cfg)) (rejected now g) in
      let both : Guard → Type 0 =
        λ x. IsCounting t6 ip signature x × Counted base ip (suc k) x × (x.cfg ≡ g.cfg) in
      elim (record_reject-cases now g) [
        | inl e ↦ subst both (sym e) (h, more, refl)
        | inr e ↦ subst both (sym e) (
          h,
          λ s small.
              count-banned now s ip ip [] (codes "tcp_accept") signature
                g.cfg.ignore_signatures_for_ban stored
              ∙ more s small,
          refl,
        )
      ]
