-- ===== src/Configs/Hint.antt =====
-- web/src/pages/Configs.tsx: `YAML_HINT`, the comment above a configuration in the editor, and the text
-- that the editor starts with.
use cloudflared_manager.Base.{List, [], ◌∷◌, ◌++◌, Str, codes}

abbrev lines : List Str → Str
lines [] = []
lines (s ∷ ss) = s ++ (10 ∷ lines ss)

unfoldable pub yaml_hint : Str
yaml_hint = lines (
    codes "# ── cloudflared 隧道配置参考（token 请填上方字段，勿写在此处）──"
    ∷ codes "# 仅 token 模式：ingress / 公共主机名 / origin 在「Cloudflare」菜单或官方后台管理。"
    ∷ codes "# 以下为全部可选字段与官方支持取值，可按需复制粘贴；留空即用 cloudflared 默认值。"
    ∷ codes "#"
    ∷ codes "# edge:                       # 与 Cloudflare 边缘的连接方式"
    ∷ codes "#   protocol: auto            # 协议类型。可选: auto(默认,优先 QUIC,失败回退 http2) | quic | http2"
    ∷ codes "#   edgeIpVersion: auto       # 边缘连接 IP 版本。可选: auto | 4(默认) | 6"
    ∷ codes "#   edgeBindAddress: \"\"       # 出口本地 IP(可选;其 IP 族会覆盖 edgeIpVersion)"
    ∷ codes "#   region: \"\"                # 边缘区域。可选: \"\"(全球,默认) | us"
    ∷ codes "#   postQuantum: false        # 后量子密钥交换(仅 protocol=quic 有效)。可选: true | false"
    ∷ codes "# reliability:"
    ∷ codes "#   retries: 0                # 连接重试上限。范围 0..20(0=用 cloudflared 默认值 5)"
    ∷ codes "#   gracePeriod: 30s          # 停止前等待在途请求的时长。范围 1s..5m(如 30s / 2m)"
    ∷ codes "# logging:"
    ∷ codes "#   logLevel: info            # 应用日志级别。可选: debug | info(默认) | warn | error | fatal"
    ∷ codes "#   transportLogLevel: info   # 传输层(QUIC/HTTP2)日志级别。取值同 logLevel"
    ∷ codes "# identity:"
    ∷ codes "#   label: \"\"                 # 连接器显示名(回传 CF 后台)。≤64,字符集 字母/数字/_/-/./空格"
    ∷ codes "#   tags:                     # 连接器标签(回传 CF 后台),key 须匹配 [A-Za-z_][A-Za-z0-9_]*"
    ∷ codes "#     env: prod"
    ∷ codes
        "# binaryVersion: \"\"           # 钉 cloudflared 版本。可选: \"\"/current(跟随全局) | 具体版本如 2026.5.2"
    ∷ codes "# advancedEnvOverrides:       # 高级 TUNNEL_* 覆盖(白名单;禁覆盖 token/metrics 等保留键)"
    ∷ codes "#   TUNNEL_XXX: value"
    ∷ codes "#"
    ∷ [])

pub new_yaml : Str
unfolding yaml_hint
new_yaml =
    yaml_hint
    ++ lines (
        codes "edge:"
        ∷ codes "  protocol: auto            # 可选: auto | quic | http2"
        ∷ codes "logging:"
        ∷ codes "  logLevel: info            # 可选: debug | info | warn | error | fatal"
        ∷ [])
