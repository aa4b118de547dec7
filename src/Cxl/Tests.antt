-- ===== src/Cxl/Tests.antt =====
-- src/cxl: a host with a device, over an empty memory.
use vans.Base.{◌≡◌, refl, true, false, List, [], ◌∷◌, some, arith}
use vans.Common.{BaseRequest, base_request, read, write}
use vans.Cxl.System.{command_of, issue_request, after_requests, after_requests-fails}
use vans.Base.{none}
use vans.Buffer.{lookup}
use vans.Cxl.Memory.{CxlMemory, empty_memory}
use vans.Cxl.Memory
use vans.Cxl.Protocol.{CommandType, CxlCommand, issue_command, handle_command}
use vans.Cxl.Endpoints.{Link, receive_response}
use vans.Cxl.Session.{session, session-received, read-write, handle_command-issue_command}

abbrev link : Link
link = record {
  host = record {
    attached = true;
    response = record { success = false; bytes = [] };
    response_ready = false;
  };
  memory = empty_memory;
}

session-received_example :
    (receive_response (session 4 (7 ∷ 8 ∷ 9 ∷ []) link)).0
    ≡ some (record { success = true; bytes = 7 ∷ 8 ∷ 9 ∷ [] })
session-received_example = session-received 4 (7 ∷ 8 ∷ 9 ∷ []) link refl (omega arith) (omega arith)

abbrev one_region : CxlMemory
one_region = record { next_free_address = 2; memory = (1, 0 ∷ 0 ∷ 0 ∷ []) ∷ [] }

one_region-lookup : lookup 1 one_region.memory ≡ some (0 ∷ 0 ∷ 0 ∷ [])
unfolding lookup
one_region-lookup = refl

read-write_example :
    Memory.read 1 2 (Memory.write 1 (5 ∷ 6 ∷ []) 2 one_region).1 ≡ some (5 ∷ 6 ∷ [])
read-write_example =
    read-write 1 (5 ∷ 6 ∷ []) (0 ∷ 0 ∷ 0 ∷ []) one_region one_region-lookup (omega arith)

abbrev a_write : CxlCommand
a_write = record { type = CommandType.write; address = 1; size = 2; bytes = 5 ∷ 6 ∷ [] }

a_write-success : (issue_command a_write one_region).0.success ≡ true
unfolding issue_command Memory.write
a_write-success = refl

handle_command-issue_command_example :
    handle_command a_write one_region ≡ issue_command a_write one_region
handle_command-issue_command_example =
    handle_command-issue_command a_write one_region a_write-success

abbrev two_requests : List BaseRequest
two_requests = base_request write 0x40 1 none ∷ base_request read 0x40 2 none ∷ []

after_requests-fails_example :
    ((issue_command
        (command_of (base_request read 1 3 none))
        (after_requests two_requests empty_memory)).0.success
      ≡ false)
    × ((issue_request (base_request read 1 3 none) (after_requests two_requests empty_memory)).0
        ≡ record { issued = true; deterministic = true; next_clk = 0 })
after_requests-fails_example = after_requests-fails two_requests (base_request read 1 3 none)
