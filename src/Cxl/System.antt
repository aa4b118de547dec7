-- ===== src/Cxl/System.antt =====
-- src/general/cxl_system.h: the memory of the CXL system, which turns a request into a command. No
-- component of the system allocates a region.
use vans.Base.{arith, ℕ, ◌≡◌, refl, ap, ◌∙◌, true, false, List, [], ◌∷◌, none}
use vans.Common.{BaseRequest, BaseRequestType, BaseResponse}
use vans.Common
use vans.Buffer.{lookup}
use vans.Cxl.Memory.{CxlMemory, empty_memory, find_region}
use vans.Cxl.Memory
use vans.Cxl.Protocol.{CommandType, CxlCommand, issue_command}

-- The command's `data` is empty, also for a write.
unfoldable pub command_of : BaseRequest → CxlCommand
command_of req = record {
  type = elim req.type [ Common.read ↦ CommandType.read | Common.write ↦ CommandType.write ];
  address = req.addr;
  size = 64;
  bytes = [];
}

unfoldable pub issue_request : BaseRequest → CxlMemory → BaseResponse × CxlMemory
unfolding command_of issue_command
issue_request req m = (
  record { issued = true; deterministic = true; next_clk = 0 },
  (issue_command (command_of req) m).1,
)

-- The memory after a sequence of requests.
unfoldable pub after_requests : List BaseRequest → CxlMemory → CxlMemory
unfolding issue_request
after_requests [] m = m
after_requests (req ∷ reqs) m = after_requests reqs (issue_request req m).1

read_empty : (a n : ℕ) → Memory.read a n empty_memory ≡ none
unfolding Memory.read find_region lookup
read_empty a n = refl

write_empty :
    (a n : ℕ) (bytes : List ℕ) → Memory.write a bytes n empty_memory ≡ (false, empty_memory)
unfolding Memory.write find_region lookup
write_empty a n bytes = refl

by_type :
    (t : BaseRequestType) (req : BaseRequest)
    → req.type ≡ t
    → ((issue_command (command_of req) empty_memory).0.success ≡ false)
      × ((issue_command (command_of req) empty_memory).1 ≡ empty_memory)
unfolding command_of issue_command
by_type Common.read req e = let r = read_empty req.addr 64 in ground arith
by_type Common.write req e = let w = write_empty req.addr 64 [] in ground arith

stays_empty : (reqs : List BaseRequest) → after_requests reqs empty_memory ≡ empty_memory
unfolding after_requests issue_request
stays_empty [] = refl
stays_empty (req ∷ reqs) = ap (after_requests reqs) (by_type req.type req refl).1 ∙ stays_empty reqs

-- After any requests from the start of the CXL system, its memory has served none: the command of a
-- further request fails, and yet the request is answered as issued, to be served at clock 0.
pub after_requests-fails :
    (reqs : List BaseRequest) (req : BaseRequest)
    → ((issue_command (command_of req) (after_requests reqs empty_memory)).0.success ≡ false)
      × ((issue_request req (after_requests reqs empty_memory)).0
          ≡ record { issued = true; deterministic = true; next_clk = 0 })
unfolding issue_request
after_requests-fails reqs req = (
  ap (λ m. (issue_command (command_of req) m).0.success) (stays_empty reqs)
      ∙ (by_type req.type req refl).0,
  refl,
)
