-- ===== src/Claude/PassSamples.antt =====
-- The theorems on the passes of anton-runtime/src/claude.rs and on its classifier, at a file of one
-- record.
use herdr_observatory.Claude.Chunks.{oversized-append}
use herdr_observatory.Claude.Classifier.{Context}
use herdr_observatory.Claude.Classifier.Keys.{viable}
use herdr_observatory.Claude.Classifier.Spelled.{viable-name_limit}
use herdr_observatory.Claude.Classifier.Validate.{name_limit, validate}
use herdr_observatory.Claude.Continues.{resume-resume, resume-within}
use herdr_observatory.Claude.Elapsed.{at_time}
use herdr_observatory.Claude.Reader.{read_line, Reader, oversized}
use herdr_observatory.Claude.Resume.{File, resume, new_reader, header, pass, restart}
use herdr_observatory.Claude.Resumed.{Passed-gate, first_pass}
use herdr_observatory.Claude.Stopped.{grown}
use herdr_observatory.Claude.Valid.{gate}
use herdr_observatory.Common.{codes, hex_id, same_bytes}
use herdr_observatory.Json.{Value, text, object, field, end}
use herdr_observatory.Prelude.{
  is_none_or, ℕ, false, true, length, List, String, Option, none, some, ◌++◌, ◌≡◌, refl, arith, ◌<◌,
  ◌≤◌, if◌then◌else◌,
}
use herdr_observatory.Result.{ok}

abbrev sample_digest : String
sample_digest = "0123456789abcdef0123456789abcdef0123456789abcdef0123456789abcdef"

abbrev sample_parse : List ℕ → Option Value
sample_parse bytes =
    if same_bytes bytes (codes "\"sessionId\"")
    then some (text "sessionId")
    else if same_bytes bytes (codes "\"s\"")
    then some (text "s")
    else none

abbrev sample_context : Context
sample_context = record {
  sha256 = λ s. sample_digest;
  digest = λ bytes. sample_digest;
  parse = sample_parse;
  timestamp_us = λ s. none;
  id = "s";
  horizon = 100;
}

abbrev sample_line : List ℕ
sample_line = codes "{\"sessionId\":\"s\"}\n"

-- What serde_json reads of the header, and of no other line.
abbrev sample_slice : List ℕ → Option Value
sample_slice bytes =
    if same_bytes bytes sample_line then some (object (field "sessionId" (text "s") end)) else none

abbrev sample_file : File
sample_file = record { device = 1; inode = 2; mtime_us = 3; bytes = sample_line ++ codes "x\n" }

sample_hex : (s : String) → hex_id (sample_context.sha256 s) 64 ≡ true
unfolding hex_id
sample_hex s = refl

abbrev sample_row : Reader
sample_row =
    pass sample_context sample_slice 3 sample_line sample_file
      (restart sample_context sample_slice sample_line sample_file)

sample_header : header sample_context sample_slice sample_file.bytes ≡ ok sample_line
unfolding header
sample_header = refl

sample_resume :
    resume (at_time 100 sample_context) sample_slice 3 sample_file none ≡ ok (sample_row, false)
unfolding resume
sample_resume = refl

sample_header_again :
    header (at_time 200 sample_context) sample_slice (sample_file.bytes ++ codes "{")
    ≡ ok sample_line
unfolding header
sample_header_again = refl

sample_stops : sample_row.offset ≡ 20
unfolding pass restart
sample_stops = refl

Passed-gate_example :
    gate 200 sample_row.classifier sample_row.row
    ≡ is_none_or sample_row.classifier (λ k. validate k)
Passed-gate_example =
    Passed-gate sample_context sample_slice 100 200 sample_row sample_hex (omega arith)
      (omega arith) (first_pass 100 3 sample_file sample_resume)

resume-resume_example :
    (u : Reader) × (resume
        (at_time 200 sample_context)
        sample_slice
        4
        (grown sample_file (codes "{") 4)
        (some sample_row)
      ≡ ok (u, is_none_or sample_row.classifier (λ k. validate k)))
resume-resume_example =
    resume-resume sample_context sample_slice 100 200 3 4 sample_file none sample_line sample_row
      false (codes "{") 4 sample_hex (omega arith) (omega arith) tt sample_header sample_resume
      (λ h. absurd (omega (arith, h))) sample_header_again

resume-within_example :
    (length sample_line ≤ sample_row.offset) × (sample_row.offset ≤ length sample_file.bytes)
resume-within_example =
    resume-within sample_context sample_slice 3 sample_file none sample_line sample_row false
      sample_header sample_resume

oversized-append_example :
    oversized sample_context sample_slice
      (codes "nId\":\"s\"}\n")
      true
      (oversized sample_context sample_slice (codes "{\"sessio") false (new_reader sample_file 0))
    ≡ oversized sample_context sample_slice sample_line true (new_reader sample_file 0)
oversized-append_example =
    oversized-append sample_context sample_slice (codes "{\"sessio") (codes "nId\":\"s\"}\n") true
      (new_reader sample_file 0)

sample_viable : viable 0 (codes "sess\\u0069on") ≡ true
unfolding viable
sample_viable = refl

viable-name_limit_example : length (codes "sess\\u0069on") < name_limit
viable-name_limit_example = viable-name_limit 0 (codes "sess\\u0069on") sample_viable

-- The classifier reads the record as the parsed path does.
sample_agrees :
    (oversized sample_context sample_slice sample_line true (new_reader sample_file 0)).row
    ≡ (read_line sample_context sample_slice sample_line (new_reader sample_file 0)).row
unfolding oversized read_line
sample_agrees = refl
