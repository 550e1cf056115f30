-- ===== src/Settlement/Tests.antt =====
-- The verifier of internal/settlement/verify.go at a small trade.
use vtessera.Common.{◌≡◌, refl, some, [], ok, err}
use vtessera.Settlement.{verify, mismatch}
use vtessera.Settlement.Sample.{small_library, small_terms, transaction_for, memo_text}

run_verify : verify small_library small_terms (some (transaction_for 100 memo_text)) ≡ ok tt
unfolding verify vtessera.Settlement.check_payer vtessera.Settlement.compile
    vtessera.Settlement.expected_canonical vtessera.Settlement.expected_instructions
    vtessera.Settlement.transfer_of vtessera.Settlement.ata vtessera.Settlement.same_instructions
    vtessera.Settlement.uint8 vtessera.Settlement.memo vtessera.Bytes.utf8
run_verify = refl

-- One base unit less.
run_verify_short :
    verify small_library small_terms (some (transaction_for 99 memo_text)) ≡ err mismatch
unfolding verify vtessera.Settlement.check_payer vtessera.Settlement.compile
    vtessera.Settlement.expected_canonical vtessera.Settlement.expected_instructions
    vtessera.Settlement.transfer_of vtessera.Settlement.ata vtessera.Settlement.same_instructions
run_verify_short = refl

-- No text in the memo.
run_verify_unnamed : verify small_library small_terms (some (transaction_for 100 [])) ≡ err mismatch
unfolding verify vtessera.Settlement.check_payer vtessera.Settlement.compile
    vtessera.Settlement.expected_canonical vtessera.Settlement.expected_instructions
    vtessera.Settlement.transfer_of vtessera.Settlement.ata vtessera.Settlement.same_instructions
    vtessera.Settlement.uint8 vtessera.Settlement.memo vtessera.Bytes.utf8
run_verify_unnamed = refl
