-- ===== src/FlowExit/Config.antt =====
-- The configuration of the exit and of PassWall in `main` of scripts/test-flow-exit.py.
use landscape_openwrt.Base.{[], ◌∷◌, Text, codes}
use landscape_openwrt.Base.Dict.{Dict}
use landscape_openwrt.Json.{Json, num, str, arr, obj, nil, cons, end, field}
use landscape_openwrt.Script.{under}

abbrev pub one_field : Text → Json → Json
one_field key value = obj (field key value end)

-- The configuration of the exit, whose only client is `identity`.
unfoldable pub exit_config : Text → Text → Json
exit_config root identity = obj (
    field (codes "log")
      (obj (
        field (codes "access") (str (under root (codes "access.log"))) (
          field (codes "error") (str (under root (codes "error.log")))
            (field (codes "loglevel") (str (codes "warning")) end))))
      (field (codes "inbounds")
        (arr (
          cons
            (obj (
              field (codes "listen") (str (codes "::")) (
                field (codes "port") (num 10443) (
                  field (codes "protocol") (str (codes "vless")) (
                    field (codes "settings")
                      (obj (
                        field (codes "clients")
                          (arr (cons (one_field (codes "id") (str identity)) nil))
                          (field (codes "decryption") (str (codes "none")) end)))
                      (field (codes "streamSettings")
                        (obj (
                          field (codes "network") (str (codes "raw"))
                            (field (codes "security") (str (codes "none")) end)))
                        end))))))
            nil))
        (field (codes "outbounds")
          (arr (cons (one_field (codes "protocol") (str (codes "freedom"))) nil)) end)))

-- The first settings of PassWall.
abbrev pub passwall_values : Text → Dict Text
passwall_values identity =
    (codes "landscape_exit", codes "nodes")
    ∷ (codes "landscape_exit.remarks", codes "isolated-ci-exit")
    ∷ (codes "landscape_exit.type", codes "Xray")
    ∷ (codes "landscape_exit.protocol", codes "vless")
    ∷ (codes "landscape_exit.address", codes "203.0.113.2")
    ∷ (codes "landscape_exit.port", codes "10443")
    ∷ (codes "landscape_exit.uuid", identity)
    ∷ (codes "landscape_exit.encryption", codes "none")
    ∷ (codes "landscape_exit.transport", codes "raw")
    ∷ (codes "landscape_exit.tls", codes "0")
    ∷ (codes "@global[0].enabled", codes "1")
    ∷ (codes "@global[0].node", codes "landscape_exit")
    ∷ (codes "@global[0].client_proxy", codes "1")
    ∷ (codes "@global[0].localhost_proxy", codes "1")
    ∷ (codes "@global[0].filter_proxy_ipv6", codes "0")
    ∷ (codes "@global[0].use_direct_list", codes "0")
    ∷ (codes "@global[0].use_proxy_list", codes "0")
    ∷ (codes "@global[0].use_block_list", codes "0")
    ∷ (codes "@global[0].use_gfw_list", codes "0")
    ∷ (codes "@global[0].chn_list", codes "0")
    ∷ (codes "@global[0].dns_shunt", codes "dnsmasq")
    ∷ (codes "@global[0].remote_dns", codes "172.30.80.1")
    ∷ (codes "@global_delay[0].start_delay", codes "0")
    ∷ (codes "@global_delay[0].start_daemon", codes "0")
    ∷ (codes "@global_forwarding[0].prefer_nft", codes "1")
    ∷ (codes "@global_forwarding[0].tcp_proxy_way", codes "tproxy")
    ∷ (codes "@global_forwarding[0].ipv6_tproxy", codes "1")
    ∷ (codes "@global_forwarding[0].tcp_redir_ports", codes "1:65535")
    ∷ (codes "@global_forwarding[0].udp_redir_ports", codes "1:65535")
    ∷ (codes "@global_forwarding[0].udp_proxy_drop_ports", codes "disable")
    ∷ []
