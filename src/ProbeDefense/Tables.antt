-- ===== src/ProbeDefense/Tables.antt =====
-- internal/persist/security_store.go: the tables of rejections, bans and exemptions. Times are
-- nanoseconds; the text columns keep whole seconds. Row numbers and the columns `updated_at`,
-- `last_hit_at` and `detail_json`, which nothing here reads, are left out.
use hao_vpn.Prelude.{
  ℕ, suc, ◌+◌, ◌*◌, ◌/◌, Bool, true, false, ◌&&◌, not, List, [], ◌∷◌, Option, none, some, Text,
  text_beq, text_eq, codes, ltb, leb, any, if◌then◌else◌, Result, ok, err,
}
use hao_vpn.Prelude.Map.{Map, get, put}
use hao_vpn.NetUtil.Strings.{trim_space}

abbrev pub second : ℕ
second = 1000000000

-- A time that went through FormatUTC, or SQLite's datetime('now').
abbrev pub to_second : ℕ → ℕ
to_second t = t / second * second

pub record SecurityEvent : Type 0 where
  pub client_ip : Text
  pub client_port : Text
  pub phase : Text
  pub signature : Text
  pub action : Text
  pub created_at : ℕ

pub record IpBlock : Type 0 where
  pub reason : Text
  pub source : Text
  pub signature : Text
  pub hits : ℕ
  pub expires_at : Option ℕ
  pub enabled : Bool

pub record IpBanExempt : Type 0 where
  pub note : Text
  pub source : Text
  pub enabled : Bool

pub record Store : Type 0 where
  pub security_events : List SecurityEvent
  pub ip_blocks : Map Text IpBlock
  pub ip_ban_exempt : Map Text IpBanExempt

unfoldable pub insert_security_event : ℕ → SecurityEvent → Store → Store
insert_security_event now e st = record st {
  security_events = record e { created_at = to_second now } ∷ st.security_events;
}

-- The WHERE of CountSecurityEventsSince.
abbrev pub is_counted : Text → ℕ → List Text → SecurityEvent → Bool
is_counted ip since ignored e =
    text_beq e.client_ip ip
    && (leb (to_second since) e.created_at
        && (text_beq e.action (codes "rejected")
            && not (
                any
                  (λ sig.
                    not (text_beq (trim_space sig) []) && text_beq e.signature (trim_space sig))
                  ignored)))

unfoldable pub count_events : Text → ℕ → List Text → List SecurityEvent → ℕ
count_events ip since ignored [] = 0
count_events ip since ignored (e ∷ events) =
    let rest = count_events ip since ignored events in
    if is_counted ip since ignored e then suc rest else rest

unfoldable pub count_security_events_since : Text → ℕ → List Text → Store → ℕ
unfolding count_events
count_security_events_since ip since ignored st = count_events ip since ignored st.security_events

-- PruneSecurityEvents
unfoldable pub events_from : ℕ → List SecurityEvent → List SecurityEvent
events_from cutoff [] = []
events_from cutoff (e ∷ events) =
    let rest = events_from cutoff events in
    if ltb e.created_at (to_second cutoff) then rest else e ∷ rest

unfoldable pub prune_security_events : ℕ → Store → Store
unfolding events_from
prune_security_events cutoff st = record st {
  security_events = events_from cutoff st.security_events;
}

abbrev pub is_active : ℕ → IpBlock → Bool
is_active now b = b.enabled && (elim b.expires_at [ none ↦ true | some t ↦ not (ltb t now) ])

-- GetActiveIPBlock
unfoldable pub get_active_ip_block : ℕ → Text → Store → Option IpBlock
get_active_ip_block now ip st = elim (get ip st.ip_blocks) [
  | none ↦ none
  | some b ↦ if is_active now b then some b else none
]

abbrev text_time : Option ℕ → Option ℕ
text_time none = none
text_time (some t) = some (to_second t)

-- A conflict keeps the hits of the row that is there.
unfoldable pub upsert_ip_block : Text → IpBlock → Store → Store
upsert_ip_block ip b st =
    let hits : ℕ = elim (get ip st.ip_blocks) [ none ↦ b.hits | some old ↦ old.hits ] in
    record st {
      ip_blocks =
          put ip (record b { hits = hits; expires_at = text_time b.expires_at }) st.ip_blocks;
    }

abbrev update_ip_block : Text → (IpBlock → IpBlock) → Store → Store
update_ip_block ip f st = record st {
  ip_blocks = elim (get ip st.ip_blocks) [
    | none ↦ st.ip_blocks
    | some b ↦ put ip (f b) st.ip_blocks
  ];
}

unfoldable pub increment_ip_block_hit : Text → Store → Store
increment_ip_block_hit ip =
    update_ip_block ip (λ b. if b.enabled then record b { hits = b.hits + 1 } else b)

unfoldable pub disable_ip_block : Text → Store → Store
disable_ip_block ip = update_ip_block ip (λ b. record b { enabled = false })

abbrev expire : ℕ → IpBlock → IpBlock
expire now b = elim b.expires_at [
  | none ↦ b
  | some t ↦ if b.enabled && ltb t (to_second now) then record b { enabled = false } else b
]

abbrev expire_all : ℕ → Map Text IpBlock → Map Text IpBlock
expire_all now [] = []
expire_all now ((ip, b) ∷ m) = (ip, expire now b) ∷ expire_all now m

unfoldable pub prune_expired_ip_blocks : ℕ → Store → Store
prune_expired_ip_blocks now st = record st { ip_blocks = expire_all now st.ip_blocks }

-- UpsertBanExempt; its error is an empty address.
unfoldable pub upsert_ban_exempt : Text → Text → Text → Store → Result (Unit {0}) Store
upsert_ban_exempt ip note source st =
    let ip' = trim_space ip in
    let note' = trim_space note in
    let source' = if text_beq (trim_space source) [] then codes "manual" else source in
    let kept : Text = elim (get ip' st.ip_ban_exempt) [
      | none ↦ note'
      | some old ↦ if text_beq note' [] then old.note else note'
    ] in
    let row : IpBanExempt = record { note = kept; source = source'; enabled = true } in
    if text_beq ip' []
    then err tt
    else ok (record st { ip_ban_exempt = put ip' row st.ip_ban_exempt })

unfoldable pub disable_ban_exempt : Text → Store → Store
disable_ban_exempt ip st = elim (get (trim_space ip) st.ip_ban_exempt) [
  | none ↦ st
  | some row ↦ record st {
    ip_ban_exempt = put (trim_space ip) (record row { enabled = false }) st.ip_ban_exempt;
  }
]

-- ListEnabledBanExemptIPs, in the order of the table.
unfoldable pub enabled_ips : Map Text IpBanExempt → List Text
enabled_ips [] = []
enabled_ips ((ip, row) ∷ m) = if row.enabled then ip ∷ enabled_ips m else enabled_ips m
