-- ===== src/Api/Types.antt =====
-- The shapes of web/src/api/types.ts that the modelled code reads and writes. An optional field is an
-- `Option`; a number is the 64-bit pattern of its IEEE double; `unknown` is a JSON value.
use cloudflared_manager.Base.{ℕ, Bool, Option, List, Str}

-- A `number`, as the bit pattern of its binary64 value.
abbrev pub Number : Type 0
Number = ℕ

mutual
  pub data Value : Type 0 where
    null : Value
    bool : Bool → Value
    num : Number → Value
    str : Str → Value
    arr : Items → Value
    obj : Fields → Value

  pub data Items : Type 0 where
    nil : Items
    cons : Value → Items → Items

  -- `Record<string, unknown>`, its keys in the order of insertion.
  pub data Fields : Type 0 where
    end : Fields
    field : Str → Value → Fields → Fields

abbrev pub OriginRequest : Type 0
OriginRequest = Fields

pub record IngressRule : Type 0 where
  pub hostname : Option Str
  pub service : Option Str
  pub path : Option Str
  pub origin_request : Option OriginRequest

-- `warp_routing` is the `enabled` flag of the object under 'warp-routing'.
pub record TunnelConfig : Type 0 where
  pub ingress : Option (List IngressRule)
  pub origin_request : Option OriginRequest
  pub warp_routing : Option Bool

pub record ZoneAccount : Type 0 where
  pub id : Str
  pub name : Str

pub record Zone : Type 0 where
  pub id : Str
  pub name : Str
  pub status : Option Str
  pub paused : Option Bool
  pub account : ZoneAccount

pub record DnsRecord : Type 0 where
  pub id : Option Str
  pub type_name : Option Str
  pub name : Option Str
  pub content : Option Str
  pub proxied : Option Bool
  pub ttl : Option Number
  pub comment : Option Str
  pub proxiable : Option Bool
  pub created_on : Option Str
  pub modified_on : Option Str

pub record DnsStatus : Type 0 where
  pub zone_id : Option Str
  pub zone_name : Option Str
  pub record_id : Option Str
  pub content : Option Str
  pub proxied : Bool
  pub exists : Bool
  pub in_sync : Bool

-- The index is a place in the ingress.
pub record PublicHostname : Type 0 where
  pub index : ℕ
  pub hostname : Str
  pub service : Str
  pub path : Option Str
  pub origin_request : Option OriginRequest
  pub dns : Option DnsStatus

pub record Snapshot : Type 0 where
  pub id : Str
  pub name : Str
  pub path : Str
  pub log_path : Str
  pub state : Str
  pub last_error : Option Str
  pub started_at : Option Str
  pub stopped_at : Option Str
  pub binary_version : Option Str
  pub pid : Option Number
  pub metrics_port : Option Number

pub record MgrMeta : Type 0 where
  pub name : Str
  pub manual_start : Bool

-- `TunnelConfigV1`, whose unknown fields are passed through.
abbrev pub ConnectorConfig : Type 0
ConnectorConfig = Fields

-- The fields that the envelope has of a snapshot are under `snap`.
pub record ConfigEnvelope : Type 0 where
  pub snap : Snapshot
  pub config : Option ConnectorConfig
  pub cfdmgr : Option MgrMeta
  pub has_token : Option Bool

pub record AccountView : Type 0 where
  pub id : Str
  pub name : Str
  pub auth_type : Str
  pub account_id : Str
  pub account_name : Str
  pub email : Str
  pub has_token : Bool
  pub has_key : Bool
  pub status : Str
  pub last_verified_at : Str
  pub created_at : Str
  pub updated_at : Str

pub record TokenInfo : Type 0 where
  pub has_token : Bool
  pub account_tag : Option Str
  pub tunnel_id : Option Str
  pub error : Option Str

-- `CFBinding`; the tunnel's description, which is only shown, is a JSON object.
pub record Binding : Type 0 where
  pub bound : Bool
  pub account_id : Option Str
  pub account_name : Option Str
  pub cf_account_id : Option Str
  pub tunnel_id : Option Str
  pub tunnel_name : Option Str
  pub account_tag : Option Str
  pub token_account_tag : Option Str
  pub token_tunnel_id : Option Str
  pub match : Bool
  pub tunnel : Option Fields

pub record HostnameList : Type 0 where
  pub items : Option (List PublicHostname)
  pub tunnel_id : Option Str
  pub dns_error : Option Str

pub record HostnameWrite : Type 0 where
  pub hostname : Str
  pub service : Str
  pub index : Option ℕ
  pub dns : Option DnsStatus
  pub dns_error : Option Str

pub record CfAccount : Type 0 where
  pub id : Str
  pub name : Str
  pub type_name : Option Str

pub record AccountVerify : Type 0 where
  pub ok : Bool
  pub error : Option Str
  pub accounts : Option (List CfAccount)

pub record AccountResp : Type 0 where
  pub account : AccountView
  pub verify : AccountVerify

-- `CFAccountInput`; an update may leave any field out.
pub record AccountInput : Type 0 where
  pub name : Option Str
  pub auth_type : Option Str
  pub token : Option Str
  pub email : Option Str
  pub api_key : Option Str
  pub account_id : Option Str

pub data AlertMetric : Type 0 where
  conns requests_rate errors_rate traffic_in_rate traffic_out_rate : AlertMetric

pub data AlertOp : Type 0 where
  gt ge lt le : AlertOp

pub record AlertRule : Type 0 where
  pub id : Str
  pub name : Str
  pub enabled : Bool
  pub inst_id : Str
  pub metric : AlertMetric
  pub op : AlertOp
  pub threshold : Number
  pub for_seconds : Number
  pub target : Str
  pub webhook : Str

pub record AlertEvent : Type 0 where
  pub id : Str
  pub rule_id : Str
  pub inst_id : Str
  pub target : Str
  pub fired_at : Number
  pub resolved_at : Number
  pub value : Number
  pub state : Str

pub record Tunnel : Type 0 where
  pub id : Str
  pub account_tag : Option Str
  pub name : Str
  pub created_at : Option Str
  pub deleted_at : Option Str
  pub conns_active_at : Option Str
  pub conns_inactive_at : Option Str
  pub status : Option Str
  pub tun_type : Option Str
  pub config_src : Option Str
  pub remote_config : Option Bool
  pub connections : Option Value
