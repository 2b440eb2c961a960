-- ===== src/Mctp/Laws.antt =====
-- The two functions of `mctp_transport.rs` together.
use pldm_lib.Base.{ℕ, ◌≡◌, List, [], ◌∷◌, Result, length, arith}
use pldm_lib.Mctp.{extract_pldm_msg, construct_mctp_pldm_msg}

-- When `construct_mctp_pldm_msg` accepts a buffer and bytes of the length of its message part
-- are written there, `extract_pldm_msg` finds these bytes.
pub extract-construct :
    (msg payload written : List ℕ) (b : ℕ)
    → construct_mctp_pldm_msg msg ≡ Result.ok (b, payload)
    → length written ≡ length payload
    → extract_pldm_msg (b ∷ written) ≡ Result.ok written
unfolding extract_pldm_msg construct_mctp_pldm_msg
extract-construct [] payload written b h e = ground arith
extract-construct (x ∷ xs) payload written b h e = ground arith
