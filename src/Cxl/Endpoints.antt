-- ===== src/Cxl/Endpoints.antt =====
-- src/cxl/CxlHostInterfaceImpl.h and src/cxl/CxlDeviceInterfaceImpl.h: the host with its one response,
-- the device that passes a command to the protocol handler, and the handler's response callback, which
-- the device registers and which hands the response to the host.
use vans.Base.{Bool, true, false, Option, none, some}
use vans.Cxl.Memory.{CxlMemory}
use vans.Cxl.Protocol.{CxlCommand, CxlResponse, issue_command}

pub record Host : Type 0 where
  pub attached : Bool
  pub response : CxlResponse
  pub response_ready : Bool

pub record Link : Type 0 where
  pub host : Host
  pub memory : CxlMemory

unfoldable pub set_response : CxlResponse → Host → Host
set_response resp h = record h { response = resp; response_ready = true }

-- `receiveCommand`: what `issueCommand` returns, after its callback.
unfoldable pub receive_command : CxlCommand → Link → Bool × Link
unfolding set_response issue_command
receive_command cmd l =
    let (response, memory) = issue_command cmd l.memory in
    (response.success, record { host = set_response response l.host; memory = memory })

unfoldable pub send_command : CxlCommand → Link → Bool × Link
unfolding receive_command
send_command cmd l = elim l.host.attached [ false ↦ (false, l) | true ↦ receive_command cmd l ]

-- The response that is received; `none` is the answer `false`.
unfoldable pub receive_response : Link → Option CxlResponse × Link
receive_response l = elim l.host.response_ready [
  | false ↦ (none, l)
  | true ↦ (some l.host.response, record l { host = record (l.host) { response_ready = false } })
]
