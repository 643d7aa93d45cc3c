-- ===== src/Runtime/LogFile.antt =====
-- The log of a process: `_BoundedLogWriter` of backend/app/runtime/processes.py. The file and its
-- backup are lists of bytes. The decoding that drops the bytes of no character is an argument.
use meshtastic_lab.Base.{
  ℕ, ◌+◌, ◌-◌, ◌≤◌, ◌≡◌, refl, inl, inr, ◌&&◌, List, [], ◌∷◌, ◌++◌, Option, some, arith, ltb, ◌==◌,
  if◌then◌else◌, length, drop, length-append, length-drop, Bool-cases,
}

pub record LogWriter : Type 0 where
  pub content : List ℕ
  pub backup : Option (List ℕ)
  pub max_bytes : ℕ
  pub size : ℕ

abbrev pub newline : ℕ
newline = 10

-- What stands behind the first newline, and nothing if there is none.
unfoldable pub behind_newline : List ℕ → List ℕ
behind_newline [] = []
behind_newline (b ∷ bytes) = let rest = behind_newline bytes in if b == newline then bytes else rest

-- `_trim_existing`
abbrev pub trim_existing : LogWriter → LogWriter
trim_existing w =
    let tail = behind_newline (drop (length w.content - w.max_bytes) w.content) in
    record w { content = tail; size = length tail }

-- `_BoundedLogWriter.__init__`
unfoldable pub open_log : ℕ → List ℕ → Option (List ℕ) → LogWriter
open_log max_bytes content backup =
    let w : LogWriter = record {
      content = content;
      backup = backup;
      max_bytes = max_bytes;
      size = length content;
    } in
    if ltb max_bytes w.size then trim_existing w else w

-- `_rotate`
abbrev pub rotate : LogWriter → LogWriter
rotate w = record w { content = []; backup = some w.content; size = 0 }

abbrev pub append_bytes : List ℕ → LogWriter → LogWriter
append_bytes bytes w = record w { content = w.content ++ bytes; size = w.size + length bytes }

-- `payload`
abbrev pub payload_of : (List ℕ → List ℕ) → ℕ → List ℕ → List ℕ
payload_of decoded max_bytes text =
    let line = text ++ (newline ∷ []) in
    if ltb max_bytes (length line) then decoded (drop (length line - max_bytes) line) else line

-- `write_line`, with the encoded text.
unfoldable pub write_line : (List ℕ → List ℕ) → List ℕ → LogWriter → LogWriter
write_line decoded text w =
    let payload = payload_of decoded w.max_bytes text in
    append_bytes payload
      (if ltb 0 w.size && ltb w.max_bytes (w.size + length payload) then rotate w else w)

-- The file is as long as its size says, and within the bound.
pub record IsLog (w : LogWriter) : Type 0 where
  pub sized : w.size ≡ length w.content
  pub bounded : length w.content ≤ w.max_bytes

behind_newline-length : (bytes : List ℕ) → length (behind_newline bytes) ≤ length bytes
unfolding behind_newline
behind_newline-length [] = omega arith
behind_newline-length (b ∷ bytes) = ground (arith, behind_newline-length bytes)

pub open_log-IsLog :
    (max_bytes : ℕ) (content : List ℕ) (backup : Option (List ℕ))
    → IsLog (open_log max_bytes content backup)
unfolding open_log
open_log-IsLog max_bytes content backup = elim (Bool-cases (ltb max_bytes (length content))) [
  | inl long ↦
      rw (open_log, long)
        (record {
          sized = refl;
          bounded = omega (
            arith,
            behind_newline-length (drop (length content - max_bytes) content),
            length-drop (length content - max_bytes) content,
          );
        })
  | inr fits ↦ rw (open_log, fits) (record { sized = refl; bounded = ground arith })
]

module _ (decoded : List ℕ → List ℕ)
    (shortens : (bytes : List ℕ) → length (decoded bytes) ≤ length bytes) where
  payload-length :
      (max_bytes : ℕ) (text : List ℕ) → length (payload_of decoded max_bytes text) ≤ max_bytes
  payload-length max_bytes text =
      let line = text ++ (newline ∷ []) in
      elim (Bool-cases (ltb max_bytes (length line))) [
        | inl long ↦ rw long (
            ground (
              arith,
              shortens (drop (length line - max_bytes) line),
              length-drop (length line - max_bytes) line,
            ))
        | inr fits ↦ rw fits (ground arith)
      ]

  pub write_line-IsLog :
      (text : List ℕ) (w : LogWriter) → IsLog w → IsLog (write_line decoded text w)
  unfolding write_line
  write_line-IsLog text w v =
      let payload = payload_of decoded w.max_bytes text in
      let short = payload-length w.max_bytes text in
      elim (Bool-cases (ltb 0 w.size && ltb w.max_bytes (w.size + length payload))) [
        | inl full ↦ rw (write_line, full) (record { sized = omega arith; bounded = short })
        | inr room ↦
            rw (write_line, room)
              (record {
                sized = omega (arith, v.sized, length-append w.content payload);
                bounded =
                    ground
                      (arith, v.sized, v.bounded, short, room, length-append w.content payload);
              })
      ]
