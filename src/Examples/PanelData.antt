-- ===== src/Examples/PanelData.antt =====
-- Examples at the panel's tables and at the configurations of OpenVPN.
use kui_local_multi_exit.Prelude.{
  String, true, not, none, some, List, [], ◌∷◌, ◌≡◌, refl, keep, map,
}
use kui_local_multi_exit.Prelude.Dict
use kui_local_multi_exit.Prelude.Int.{pos}
use kui_local_multi_exit.Prelude.Exec.{returned}
use kui_local_multi_exit.Json.{str, num}
use kui_local_multi_exit.Panel.Users.Refinement.{
  Request, add, change, remove, read, Map, answers, specified, answers-specified,
}
use kui_local_multi_exit.Panel.Hosts.Numbering.{
  new_host, new_node, no_hosts, perform_all, IsNumbered, reached_hosts-IsNumbered,
}
use kui_local_multi_exit.Panel.Hosts.Numbering
use kui_local_multi_exit.Panel.Hosts.Cascade.{Cascades}
use kui_local_multi_exit.Panel.Subscriptions.{
  SubNode, Feeds, Summary, is_of_sub, list_enabled_thirdparty_nodes, update_thirdparty,
}
use kui_local_multi_exit.Panel.Subscriptions.Enabling.{switch, switched_on, switching_decides}
use kui_local_multi_exit.Vpngate.Sanitize.{
  sanitize_openvpn_config, is_ipv4, take_lines, take_line, outside_line, directive_line,
  remote_directive, open_block, inside_line, finish_config,
}
use kui_local_multi_exit.Prelude.Text.{
  split_on, digits, digits_from, decimal, decimal_fuel, split_lines, strip, lstrip, rstrip, split,
  lower, int, without_ends, join,
}
use kui_local_multi_exit.Prelude.Url.{ends_with}
use kui_local_multi_exit.Vpngate.Sanitize.Clean.{IsConfig, sanitized-IsConfig}

abbrev no_users : Map
no_users k = none

abbrev user_requests : List Request
user_requests =
    add "ann" "hash" (pos 0) (pos 0) "token" 1000
    ∷ add "ann" "other" (pos 0) (pos 0) "token" 1000
    ∷ change "ann" (("enable", num (pos 0)) ∷ [])
    ∷ read "ann"
    ∷ remove "ann"
    ∷ change "ann" (("enable", num (pos 1)) ∷ [])
    ∷ []

answers-specified_example : answers user_requests [] ≡ specified user_requests no_users
unfolding Dict.get
answers-specified_example = answers-specified user_requests [] no_users (λ k. refl)

abbrev host_requests : List Numbering.Request
host_requests =
    new_host "192.0.2.1" "one" "debian" [] 1000
    ∷ new_node none (("ip", str "192.0.2.1") ∷ []) [] 1001
    ∷ new_node (some 7) (("ip", str "192.0.2.2") ∷ []) [] 1002
    ∷ []

reached_hosts-IsNumbered_example :
    IsNumbered (perform_all host_requests no_hosts)
    × Cascades "192.0.2.1" (perform_all host_requests no_hosts)
reached_hosts-IsNumbered_example = reached_hosts-IsNumbered host_requests "192.0.2.1"

abbrev feed_node : SubNode
feed_node = record { id = 1; subscription_id = 3; enable = num (pos 0); columns = [] }

abbrev feeds : Feeds
feeds = record {
  subs = record { id = 3; enable = num (pos 0); columns = [] } ∷ [];
  nodes = feed_node ∷ [];
  last_sub = 3;
  last_node = 1;
}

switching_decides_example :
    (keep (is_of_sub 3) (list_enabled_thirdparty_nodes (update_thirdparty 3 (switch true) feeds).1)
      ≡ map switched_on (keep (is_of_sub 3) feeds.nodes))
    × (keep
          (λ n. not (is_of_sub 3 n))
          (list_enabled_thirdparty_nodes (update_thirdparty 3 (switch true) feeds).1)
        ≡ keep (λ n. not (is_of_sub 3 n)) (list_enabled_thirdparty_nodes feeds))
    × ((u : Summary) × ((update_thirdparty 3 (switch true) feeds).0 ≡ returned (some u)))
switching_decides_example = switching_decides 3 true feeds refl

abbrev raw_config : String
raw_config =
    "# a comment\nproto udp\nremote 198.51.100.7 1195\nredirect-gateway def1\n<ca>\nabc\n</ca>\n"

abbrev clean_config : String
clean_config =
    "client\ndev tun\nnobind\npersist-key\npersist-tun\nremote-random\nproto udp\nremote 203.0.113.7 1195\n<ca>\nabc\n</ca>\n"

config_sanitized : sanitize_openvpn_config raw_config "203.0.113.7" ≡ returned clean_config
unfolding sanitize_openvpn_config is_ipv4 split_on digits digits_from decimal decimal_fuel
    take_lines split_lines take_line strip lstrip rstrip outside_line directive_line split lower
    remote_directive int ends_with open_block without_ends inside_line finish_config join
config_sanitized = refl

sanitized-IsConfig_example : IsConfig "203.0.113.7" clean_config × (is_ipv4 "203.0.113.7" ≡ true)
sanitized-IsConfig_example =
    sanitized-IsConfig raw_config "203.0.113.7" clean_config config_sanitized
