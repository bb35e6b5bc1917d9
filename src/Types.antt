-- ===== src/Types.antt =====
-- The catalog's data: the enums of src/domain/types.ts and the records that the store keeps
-- (src/domain/types.ts, src/domain/store.ts, src/domain/memory-store.ts).
-- Times are milliseconds since the epoch; scores are in ten-thousandths, as `toFixed(4)` leaves
-- them. Free-form JSON (`evidence`, `factors`, schemas) is not kept.
pub mod Records
use directory.Common.{ℕ, ◌≡◌, ◌↔◌, Bool, true, arith, StrictEq, nat_beq}

pub data ToolProtocol : Type 0 where
  mcp api a2a : ToolProtocol

-- `no_auth` is the source's "none".
pub data AuthRequirement : Type 0 where
  no_auth api_key oauth other : AuthRequirement

pub data EndpointTransport : Type 0 where
  http mcp_http mcp_stdio a2a : EndpointTransport

pub data ToolStatus : Type 0 where
  pending active degraded deprecated suspended : ToolStatus

pub data CheckType : Type 0 where
  endpoint_availability mcp_handshake tools_list schema_consistency latency error_rate
        tls_security :
      CheckType

pub data CheckStatus : Type 0 where
  pass fail warn error : CheckStatus

abbrev protocol_tag : ToolProtocol → ℕ
protocol_tag ToolProtocol.mcp = 0
protocol_tag ToolProtocol.api = 1
protocol_tag ToolProtocol.a2a = 2

abbrev status_tag : ToolStatus → ℕ
status_tag ToolStatus.pending = 0
status_tag ToolStatus.active = 1
status_tag ToolStatus.degraded = 2
status_tag ToolStatus.deprecated = 3
status_tag ToolStatus.suspended = 4

abbrev check_type_tag : CheckType → ℕ
check_type_tag CheckType.endpoint_availability = 0
check_type_tag CheckType.mcp_handshake = 1
check_type_tag CheckType.tools_list = 2
check_type_tag CheckType.schema_consistency = 3
check_type_tag CheckType.latency = 4
check_type_tag CheckType.error_rate = 5
check_type_tag CheckType.tls_security = 6

abbrev check_status_tag : CheckStatus → ℕ
check_status_tag CheckStatus.pass = 0
check_status_tag CheckStatus.fail = 1
check_status_tag CheckStatus.warn = 2
check_status_tag CheckStatus.error = 3

abbrev auth_tag : AuthRequirement → ℕ
auth_tag AuthRequirement.no_auth = 0
auth_tag AuthRequirement.api_key = 1
auth_tag AuthRequirement.oauth = 2
auth_tag AuthRequirement.other = 3

abbrev protocol_beq : ToolProtocol → ToolProtocol → Bool
protocol_beq p q = nat_beq (protocol_tag p) (protocol_tag q)

abbrev status_beq : ToolStatus → ToolStatus → Bool
status_beq s t = nat_beq (status_tag s) (status_tag t)

abbrev check_type_beq : CheckType → CheckType → Bool
check_type_beq s t = nat_beq (check_type_tag s) (check_type_tag t)

abbrev check_status_beq : CheckStatus → CheckStatus → Bool
check_status_beq s t = nat_beq (check_status_tag s) (check_status_tag t)

abbrev auth_beq : AuthRequirement → AuthRequirement → Bool
auth_beq s t = nat_beq (auth_tag s) (auth_tag t)

pub protocol_beq_iff : (p q : ToolProtocol) → (protocol_beq p q ≡ true) ↔ (p ≡ q)
protocol_beq_iff p q = ground arith

pub status_beq_iff : (s t : ToolStatus) → (status_beq s t ≡ true) ↔ (s ≡ t)
status_beq_iff s t = ground arith

pub check_type_beq_iff : (s t : CheckType) → (check_type_beq s t ≡ true) ↔ (s ≡ t)
check_type_beq_iff s t = ground arith

pub check_status_beq_iff : (s t : CheckStatus) → (check_status_beq s t ≡ true) ↔ (s ≡ t)
check_status_beq_iff s t = ground arith

pub auth_beq_iff : (s t : AuthRequirement) → (auth_beq s t ≡ true) ↔ (s ≡ t)
auth_beq_iff s t = ground arith

instance abbrev pub protocol_eq : StrictEq ToolProtocol
protocol_eq = record { same = protocol_beq; same_iff = protocol_beq_iff }

instance abbrev pub status_eq : StrictEq ToolStatus
status_eq = record { same = status_beq; same_iff = status_beq_iff }

instance abbrev pub check_type_eq : StrictEq CheckType
check_type_eq = record { same = check_type_beq; same_iff = check_type_beq_iff }

instance abbrev pub check_status_eq : StrictEq CheckStatus
check_status_eq = record { same = check_status_beq; same_iff = check_status_beq_iff }

instance abbrev pub auth_eq : StrictEq AuthRequirement
auth_eq = record { same = auth_beq; same_iff = auth_beq_iff }
