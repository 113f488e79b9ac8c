-- ===== src/Examples/Data.antt =====
-- Two accounts online: a laptop at 10.88.0.2, and an office at 10.88.0.3 that is the via of
-- 192.168.5.0/24.
use hao_vpn.Prelude.{ℕ, suc, ◌*◌, true, false, List, [], ◌∷◌, Option, none, some, codes}
use hao_vpn.Net.{IpNet, Text6}
use hao_vpn.SessionMgr.{
  Cipher, ViaRoute, AccountSession, Store, Manager, Env, second, reject_second,
}
use hao_vpn.SessionMgr.Stats.{User}
use hao_vpn.SessionMgr.Register.{PeerReg}

-- No IPv6 text is read.
abbrev pub no_text6 : Text6
no_text6 = record { parse6 = λ s. none; show6 = λ ip. [] }

-- A counter in front of the packet.
abbrev pub opened_frame : List ℕ → Option (List ℕ)
opened_frame [] = none
opened_frame (n ∷ packet) = some packet

abbrev pub counter_cipher : Cipher ℕ
counter_cipher = record {
  encrypt = λ n packet. (some (n ∷ packet), suc n);
  decrypt = λ n frame. (opened_frame frame, suc n);
}

abbrev pub calm : Env
calm = record { now = 1000 * second; send_ok = λ c. true; last_peer_activity = λ c. none }

abbrev pub vpn_net : IpNet
vpn_net = record { ip = 10 ∷ 88 ∷ 0 ∷ 0 ∷ []; mask = 255 ∷ 255 ∷ 255 ∷ 0 ∷ [] }

abbrev pub office_net : IpNet
office_net = record { ip = 192 ∷ 168 ∷ 5 ∷ 0 ∷ []; mask = 255 ∷ 255 ∷ 255 ∷ 0 ∷ [] }

abbrev pub via_office : ViaRoute
via_office = record { net = office_net; via_user_id = 2 }

abbrev pub laptop : AccountSession ℕ
laptop = record {
  user_id = 1;
  public_key = codes "k1";
  vpn_ip = codes "10.88.0.2";
  allowed_ips = vpn_net ∷ office_net ∷ [];
  via_routes = via_office ∷ [];
  peer_access = 2 ∷ [];
  via_peers = [];
  exit_lans = [];
  ip_mode = codes "static";
  policy_ver = 1;
  conn = 11;
  crypto = some 7;
  remote_addr = codes "1.2.3.4:5000";
  rx_bytes = 100;
  tx_bytes = 200;
  connected_at = 900 * second;
  last_stat_flush = 0;
  last_spoof_warn = 0;
  last_dst_warn = 0;
  dst_drop_count = 0;
  lan_registry_sync_count = 0;
  last_lan_registry_sync = 0;
}

abbrev pub office : AccountSession ℕ
office = record laptop {
  user_id = 2;
  public_key = codes "k2";
  vpn_ip = codes "10.88.0.3";
  allowed_ips = vpn_net ∷ [];
  via_routes = [];
  peer_access = [];
  exit_lans = office_net ∷ [];
  conn = 12;
  remote_addr = codes "5.6.7.8:5000";
}

abbrev pub tables : Store
tables = record {
  session_stats = [];
  client_lan_registry = λ user. some [];
  user_vpn_ips = some [];
}

abbrev pub two_online : Manager ℕ
two_online = record {
  store = some tables;
  heap = (0, laptop) ∷ (1, office) ∷ [];
  next_ref = 2;
  sessions = (1, 0) ∷ (2, 1) ∷ [];
  by_ip = (laptop.vpn_ip, 0) ∷ (office.vpn_ip, 1) ∷ [];
  vpn_index = (laptop.vpn_ip, 1) ∷ (office.vpn_ip, 2) ∷ [];
  via_index = via_office ∷ [];
  allow_all_peers = false;
  session_policy = reject_second;
  reconnect_grace = 60 * second;
  has_kick_handler = true;
  has_disconnect_handler = true;
  has_flows = false;
}

abbrev pub laptop_user : User
laptop_user = record {
  id = 1;
  public_key = codes "k1";
  vpn_ip = codes "10.88.0.2";
  ip_mode = codes "static";
  policy_ver = 2;
  enabled = true;
}

abbrev pub no_peers : PeerReg
no_peers = record { via_routes = []; peer_access_ids = []; via_user_ids = [] }

-- An IPv4 header from one address to another, without a payload.
abbrev pub header : ℕ → ℕ → List ℕ
header src dst =
    69 ∷ 0 ∷ 0 ∷ 20 ∷ 0 ∷ 0 ∷ 0 ∷ 0 ∷ 64 ∷ 17 ∷ 0 ∷ 0 ∷ 10 ∷ 88 ∷ 0 ∷ src ∷ 10 ∷ 88 ∷ 0 ∷ dst ∷ []
