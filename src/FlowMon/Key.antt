-- ===== src/FlowMon/Key.antt =====
-- The key of a flow, with the client's side first whichever way the packet goes.
use Prim.Native.Nat.{bit_xor}
use hao_vpn.Prelude.{
  Eq, ℕ, ◌+◌, ◌*◌, ◌/◌, ◌%◌, ◌^◌, ◌≡◌, ◌↔◌, Bool, true, ◌&&◌, ◌||◌, List, [], ◌∷◌, Option, none,
  some, Text, text_beq, text_beq_iff, nat_beq, arith, ltb, if◌then◌else◌, length, take, drop,
}
use hao_vpn.Net.{Text6}
use hao_vpn.Net.Print.{ip_string}

-- Key
pub record FlowKey : Type 0 where
  pub user_id : ℕ
  pub src_ip : Text
  pub dst_ip : Text
  pub proto : ℕ
  pub sport : ℕ
  pub dport : ℕ

abbrev pub key_beq : FlowKey → FlowKey → Bool
key_beq a b =
    nat_beq a.user_id b.user_id
    && (text_beq a.src_ip b.src_ip
        && (text_beq a.dst_ip b.dst_ip
            && (nat_beq a.proto b.proto && (nat_beq a.sport b.sport && nat_beq a.dport b.dport))))

pub key_beq_iff : (a b : FlowKey) → (key_beq a b ≡ true) ↔ (a ≡ b)
key_beq_iff a b = ground (arith, text_beq_iff a.src_ip b.src_ip, text_beq_iff a.dst_ip b.dst_ip)

instance abbrev pub key_eq : Eq FlowKey
key_eq = record { decide_eq = key_beq; decide_eq_iff = key_beq_iff }

pub data Direction : Type 0 where
  dir_in dir_out : Direction

abbrev pub byte_at : ℕ → List ℕ → ℕ
byte_at i packet = elim (drop i packet) [ [] ↦ 0 | b ∷ rest ↦ b ]

-- binary.BigEndian.Uint16
abbrev uint16_at : ℕ → List ℕ → ℕ
uint16_at i packet = byte_at i packet * 256 + byte_at (i + 1) packet

abbrev pub header_length : List ℕ → ℕ
header_length packet = byte_at 0 packet % 16 * 4

abbrev pub has_ports : List ℕ → Bool
has_ports packet = nat_beq (byte_at 9 packet) 6 || nat_beq (byte_at 9 packet) 17

-- The first half of ObservePacket; none is a packet that it passes over.
unfoldable pub key_of : Text6 → ℕ → List ℕ → Direction → Option FlowKey
key_of t user packet dir =
    let ihl = header_length packet in
    let src_ip = ip_string t (take 4 (drop 12 packet)) in
    let dst_ip = ip_string t (take 4 (drop 16 packet)) in
    let sport = if has_ports packet then uint16_at ihl packet else 0 in
    let dport = if has_ports packet then uint16_at (ihl + 2) packet else 0 in
    if nat_beq user 0 || ltb (length packet) 20
    then none
    else if nat_beq (byte_at 0 packet / 16) 4
    then (if ltb ihl 20 || ltb (length packet) ihl
        then none
        else if has_ports packet && ltb (length packet) (ihl + 4)
        then none
        else elim dir [
          | dir_in ↦ some (record {
            user_id = user;
            src_ip = src_ip;
            dst_ip = dst_ip;
            proto = byte_at 9 packet;
            sport = sport;
            dport = dport;
          })
          | dir_out ↦ some (record {
            user_id = user;
            src_ip = dst_ip;
            dst_ip = src_ip;
            proto = byte_at 9 packet;
            sport = dport;
            dport = sport;
          })
        ])
    else none

-- The hash loop over the remote address.
hash_text : ℕ → Text → ℕ
hash_text h [] = h
hash_text h (c ∷ s) = hash_text ((h * 31 + c) % 2 ^ 64) s

-- shardIndex; `h` is a uint64.
unfoldable pub shard_index : FlowKey → ℕ
unfolding hash_text
shard_index k =
    hash_text
      (bit_xor (bit_xor (k.user_id % 2 ^ 64) (k.proto * 2 ^ 8))
        (bit_xor (k.sport * 2 ^ 16) (k.dport * 2 ^ 32)))
      k.dst_ip
    % 16
