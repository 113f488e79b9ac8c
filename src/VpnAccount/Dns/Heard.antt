-- ===== src/VpnAccount/Dns/Heard.antt =====
-- Whoever is told of other DNS servers after a write is marked.
use hao_vpn.Prelude.{
  ℕ, ◌≡◌, ◌≢◌, refl, ap, sym, subst, ◌∙◌, ◌⊎◌, inl, inr, Bool, true, false, ◌&&◌, ◌||◌, not, List,
  [], ◌∷◌, ◌++◌, some, arith, nat_beq, ltb, any_append, map, Bool-cases, Option-cases, Text,
}
use hao_vpn.Prelude.Sort.{sort_by}
use hao_vpn.NetUtil.Strings.{trim_space}
use hao_vpn.VpnAccount.Tables.{filter, has_member}
use hao_vpn.VpnAccount.Apply.{
  Applier, has_user, mark_all, mark_users, mark_members_union, normalize_member_user_ids,
}
use hao_vpn.VpnAccount.Apply.Served.{has_user-filter}
use hao_vpn.VpnAccount.Writes.Marks.{
  is_marked, mark_users-is_marked, mark_members_union-is_marked, has_member_lem, any-sort_by,
}
use hao_vpn.VpnAccount.Dns.{
  DnsServer, DnsPolicy, is_config_source, applies, get_dns_server, update_dns_server,
  remove_dns_server, symmetric_diff_user_ids, mark_dns_dirty, dns_members_set, dns_excludes_set,
  update_dns_server_remark, replace_dns_server_members, replace_dns_server_excludes,
  delete_dns_server, normalize_exclude_user_ids,
}

abbrev pub heard : ℕ → List DnsServer → List Text
heard user ds = map {A = DnsServer} (λ d. d.dns_ip) (filter (applies user) ds)

-- Either the account is marked, or nothing changes for it.
abbrev pub Heard : ℕ → DnsPolicy → DnsPolicy → Type 0
Heard user s s' =
    (is_marked user s'.applier ≡ true)
    ⊎ ((is_marked user s'.applier ≡ is_marked user s.applier)
        × (heard user s'.servers ≡ heard user s.servers))

pub same-Heard : (user : ℕ) (s s' : DnsPolicy) → s' ≡ s → Heard user s s'
same-Heard user s s' e = subst (Heard user s) (sym e) (inr (refl, refl))

-- By whether the account is among those that are marked.
pub marked-Heard :
    (user : ℕ) (s s' : DnsPolicy) (told : Bool)
    → is_marked user s'.applier ≡ (is_marked user s.applier || told)
    → (told ≡ true) ⊎ (heard user s'.servers ≡ heard user s.servers)
    → Heard user s s'
marked-Heard user s s' told marks (inl h) = inl (ground (arith, marks, h))
marked-Heard user s s' told marks (inr h) = elim (Bool-cases told) [
  | inl k ↦ inl (ground (arith, marks, k))
  | inr k ↦ inr (ground (arith, marks, k), h)
]

heard-update :
    (user id : ℕ) (f : DnsServer → DnsServer) (old : DnsServer) (ds : List DnsServer)
    → get_dns_server id ds ≡ some old
    → ((d : DnsServer) → (f d).dns_ip ≡ d.dns_ip)
    → applies user (f old) ≡ applies user old
    → heard user (update_dns_server id f ds) ≡ heard user ds
unfolding get_dns_server update_dns_server filter
heard-update user id f old [] e ip h = refl
heard-update user id f old (d ∷ ds) e ip h = elim (Bool-cases (nat_beq d.id id)) [
  | inl k ↦
      let same : old ≡ d = ground (arith, k, e) in
      let h' : applies user (f d) ≡ applies user d =
        subst (λ x. applies user (f x) ≡ applies user x) same h in
      ground (arith, k, h', ip d)
  | inr k ↦ ground (arith, k, e, heard-update user id f old ds (ground (arith, k, e)) ip h)
]

heard-remove :
    (user id : ℕ) (old : DnsServer) (ds : List DnsServer)
    → get_dns_server id ds ≡ some old
    → applies user old ≡ false
    → heard user (remove_dns_server id ds) ≡ heard user ds
unfolding get_dns_server remove_dns_server filter
heard-remove user id old [] e h = refl
heard-remove user id old (d ∷ ds) e h = elim (Bool-cases (nat_beq d.id id)) [
  | inl k ↦
      let same : old ≡ d = ground (arith, k, e) in
      let h' : applies user d ≡ false = subst (λ x. applies user x ≡ false) same h in
      ground (arith, k, h')
  | inr k ↦ ground (arith, k, e, heard-remove user id old ds (ground (arith, k, e)) h)
]

pub heard-snoc :
    (user : ℕ) (d : DnsServer) (ds : List DnsServer)
    → applies user d ≡ false
    → heard user (ds ++ (d ∷ [])) ≡ heard user ds
unfolding filter
heard-snoc user d [] h = rw h refl
heard-snoc user d (k ∷ ds) h = elim (Bool-cases (applies user k)) [
  | inl e ↦ rw e (ap (λ r. k.dns_ip ∷ r) (heard-snoc user d ds h))
  | inr e ↦ rw e (heard-snoc user d ds h)
]

pub mark_dns_dirty-is_marked :
    (user : ℕ) (d : DnsServer) (p : Applier)
    → user ≢ 0
    → is_marked user (mark_dns_dirty d.member_user_ids d.exclude_user_ids p) ≡ (
        is_marked user p
        || (has_member user d.member_user_ids
            || (not (has_user 0 d.member_user_ids) && has_user user d.exclude_user_ids)))
unfolding mark_dns_dirty mark_all
mark_dns_dirty-is_marked user d p real = ground (
  arith,
  has_member_lem user d.member_user_ids,
  mark_users-is_marked user (d.member_user_ids ++ d.exclude_user_ids) p real,
  any_append (λ j. nat_beq j user) d.member_user_ids d.exclude_user_ids,
)

pub delete-Heard :
    (user id : ℕ) (s : DnsPolicy) → user ≢ 0 → Heard user s (delete_dns_server id s).0
unfolding delete_dns_server
delete-Heard user id s real = elim (Option-cases (get_dns_server id s.servers)) [
  | inl e ↦ same-Heard user s (delete_dns_server id s).0 (ground (arith, e))
  | inr (old, e) ↦ elim (Bool-cases (is_config_source old)) [
    | inl c ↦ same-Heard user s (delete_dns_server id s).0 (ground (arith, e, c))
    | inr c ↦
        let told =
          has_member user old.member_user_ids
          || (not (has_user 0 old.member_user_ids) && has_user user old.exclude_user_ids) in
        let all_gone : heard user (delete_dns_server id s).0.servers
            ≡ heard user (remove_dns_server id s.servers) =
          ap (heard user) (ground (arith, e, c)) in
        marked-Heard user s (delete_dns_server id s).0 told
          (ground (arith, e, c, mark_dns_dirty-is_marked user old s.applier real))
          (elim (Bool-cases told) [
            | inl k ↦ inl k
            | inr k ↦ inr (
                all_gone
                ∙ heard-remove user id old s.servers e
                    (ground (arith, k, has_member_lem user old.member_user_ids)))
          ])
  ]
]

-- What a write that is taken leaves, in place of its branches.
updated-Heard :
    (user id : ℕ) (f : DnsServer → DnsServer) (old : DnsServer) (s s' : DnsPolicy) (told : Bool)
    → get_dns_server id s.servers ≡ some old
    → s'.servers ≡ update_dns_server id f s.servers
    → is_marked user s'.applier ≡ (is_marked user s.applier || told)
    → ((d : DnsServer) → (f d).dns_ip ≡ d.dns_ip)
    → (told ≡ true) ⊎ (applies user (f old) ≡ applies user old)
    → Heard user s s'
updated-Heard user id f old s s' told found e marks ip (inl h) =
    marked-Heard user s s' told marks (inl h)
updated-Heard user id f old s s' told found e marks ip (inr h) =
    marked-Heard user s s' told marks
      (inr (ap (heard user) e ∙ heard-update user id f old s.servers found ip h))

pub remark-Heard :
    (user id : ℕ) (text : Text) (s : DnsPolicy)
    → Heard user s (update_dns_server_remark id text s).0
unfolding update_dns_server_remark
remark-Heard user id text s = elim (Option-cases (get_dns_server id s.servers)) [
  | inl e ↦ same-Heard user s (update_dns_server_remark id text s).0 (ground (arith, e))
  | inr (old, e) ↦
      updated-Heard user id (λ d. record d { remark = trim_space text }) old s
        (update_dns_server_remark id text s).0 false e (ground (arith, e)) (ground (arith, e))
        (λ d. refl) (inr refl)
]

sorted-has_user : (id : ℕ) (ids : List ℕ) → has_user id (sort_by ltb ids) ≡ has_user id ids
sorted-has_user id ids = any-sort_by (λ k. nat_beq k id) ids

members_branch :
    (id : ℕ) (ids : List ℕ) (s : DnsPolicy)
    → ((replace_dns_server_members id ids s).0 ≡ s)
      ⊎ ((old : DnsServer) × (get_dns_server id s.servers ≡ some old)
          × ((replace_dns_server_members id ids s).0 ≡ record s {
            applier =
                mark_members_union old.member_user_ids
                  (sort_by ltb (normalize_member_user_ids ids))
                  s.applier;
            servers =
                update_dns_server id (dns_members_set (normalize_member_user_ids ids)) s.servers;
          }))
unfolding replace_dns_server_members
members_branch id ids s = ground (arith, Option-cases (get_dns_server id s.servers))

pub members-Heard :
    (user id : ℕ) (ids : List ℕ) (s : DnsPolicy)
    → user ≢ 0
    → Heard user s (replace_dns_server_members id ids s).0
members-Heard user id ids s real = elim (members_branch id ids s) [
  | inl e ↦ same-Heard user s (replace_dns_server_members id ids s).0 e
  | inr (old, found, e) ↦
      let ms = normalize_member_user_ids ids in
      let told = has_member user old.member_user_ids || has_member user (sort_by ltb ms) in
      updated-Heard user id (dns_members_set ms) old s (replace_dns_server_members id ids s).0 told
        found (ap (λ (x : DnsPolicy). x.servers) e)
        (ap (λ (x : DnsPolicy). is_marked user x.applier) e
          ∙ mark_members_union-is_marked user old.member_user_ids (sort_by ltb ms) s.applier real)
        (λ d. refl)
        (elim (Bool-cases told) [
          | inl k ↦ inl k
          | inr k ↦ inr (
              ground (
                arith,
                k,
                has_member_lem user old.member_user_ids,
                has_member_lem user (sort_by ltb ms),
                sorted-has_user 0 ms,
                sorted-has_user user ms,
              ))
        ])
]

excludes_branch :
    (id : ℕ) (ids : List ℕ) (s : DnsPolicy)
    → ((replace_dns_server_excludes id ids s).0 ≡ s)
      ⊎ ((old : DnsServer) × (get_dns_server id s.servers ≡ some old)
          × ((replace_dns_server_excludes id ids s).0 ≡ record s {
            applier =
                mark_users
                  (symmetric_diff_user_ids old.exclude_user_ids
                    (sort_by ltb (normalize_exclude_user_ids ids)))
                  s.applier;
            servers =
                update_dns_server id (dns_excludes_set (normalize_exclude_user_ids ids)) s.servers;
          }))
unfolding replace_dns_server_excludes
excludes_branch id ids s = ground (arith, Option-cases (get_dns_server id s.servers))

symmetric_diff-has_user :
    (id : ℕ) (a b : List ℕ)
    → id ≢ 0
    → has_user id (symmetric_diff_user_ids a b)
      ≡ ((has_user id a && not (has_user id b)) || (has_user id b && not (has_user id a)))
unfolding symmetric_diff_user_ids
symmetric_diff-has_user id a b real =
    let in_a : ℕ → Bool = λ k. ltb 0 k && not (has_user k b) in
    let in_b : ℕ → Bool = λ k. ltb 0 k && not (has_user k a) in
    ground (
      arith,
      real,
      any_append (λ k. nat_beq k id) (filter in_a a) (filter in_b b),
      has_user-filter id in_a a,
      has_user-filter id in_b b,
    )

pub excludes-Heard :
    (user id : ℕ) (ids : List ℕ) (s : DnsPolicy)
    → user ≢ 0
    → Heard user s (replace_dns_server_excludes id ids s).0
excludes-Heard user id ids s real = elim (excludes_branch id ids s) [
  | inl e ↦ same-Heard user s (replace_dns_server_excludes id ids s).0 e
  | inr (old, found, e) ↦
      let es = sort_by ltb (normalize_exclude_user_ids ids) in
      let diff = symmetric_diff_user_ids old.exclude_user_ids es in
      updated-Heard user id (dns_excludes_set (normalize_exclude_user_ids ids)) old s
        (replace_dns_server_excludes id ids s).0 (has_user user diff) found
        (ap (λ (x : DnsPolicy). x.servers) e)
        (ap (λ (x : DnsPolicy). is_marked user x.applier) e
          ∙ mark_users-is_marked user diff s.applier real)
        (λ d. refl)
        (elim (Bool-cases (has_user user diff)) [
          | inl k ↦ inl k
          | inr k ↦
              inr (ground (arith, k, symmetric_diff-has_user user old.exclude_user_ids es real))
        ])
]
