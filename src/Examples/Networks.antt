-- ===== src/Examples/Networks.antt =====
-- A network that a client advertises.
use hao_vpn.Prelude.{◌≡◌, refl, [], ◌∷◌, some, true, codes}
use hao_vpn.Net.{Ip, IpNet, contains}
use hao_vpn.Net.Print.{net_string}
use hao_vpn.Net.Parse.{parse_cidr}
use hao_vpn.NetUtil.Strings.{trim_space}
use hao_vpn.NetUtil.Rules.{parse_cidr_or_host, forbid_default_route}
use hao_vpn.NetUtil.Addr.{is_rfc1918}
use hao_vpn.NetUtil.Lan.{validate_advertised_lan}
use hao_vpn.Examples.Data.{no_text6}

abbrev home : IpNet
home = record { ip = 192 ∷ 168 ∷ 7 ∷ 0 ∷ []; mask = 255 ∷ 255 ∷ 255 ∷ 0 ∷ [] }

abbrev printer : Ip
printer = 192 ∷ 168 ∷ 7 ∷ 200 ∷ []

home_parsed : parse_cidr_or_host no_text6 (codes "192.168.7.0/24") ≡ some home
unfolding parse_cidr_or_host trim_space parse_cidr
home_parsed = refl

home_passes :
    validate_advertised_lan no_text6 (codes "192.168.7.0/24") ≡ some (codes "192.168.7.0/24")
unfolding validate_advertised_lan parse_cidr_or_host trim_space parse_cidr forbid_default_route
    net_string is_rfc1918
home_passes = refl

inside : contains home printer ≡ true
unfolding contains
inside = refl
