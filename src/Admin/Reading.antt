-- ===== src/Admin/Reading.antt =====
-- src/api/AdminServer.cpp: the loop of `handle_connection` that reads a request.
use Prim.Native.String
use Prim.Native.String.{String, len, slice, find}
use lib_stereo_camera.Common.{
  ℕ, ◌+◌, ◌-◌, List, [], ◌∷◌, Bool, false, Option, none, some, ◌>>=◌, if◌then◌else◌, leb,
}
use lib_stereo_camera.Admin.{found, find_from}

-- What the loop keeps: the bytes read, the position of the header's end once it is found, and the
-- length that the header states.
pub record Reading : Type 0 where
  pub raw : String
  pub header_end_pos : Option ℕ
  pub content_length : ℕ

unfoldable pub no_bytes : Reading
no_bytes = record { raw = ""; header_end_pos = none; content_length = 0 }

-- Where one of the two spellings of the header's field starts.
unfoldable pub length_pos : String → ℕ
length_pos header =
    let cl_pos = find header "Content-Length:" in
    if found header cl_pos then cl_pos else find header "content-length:"

-- The text after the field's name, up to the end of its line.
unfoldable pub length_text : String → ℕ → String
unfolding find_from
length_text header cl_pos =
    let eol = find_from header "\r\n" cl_pos in
    slice header (cl_pos + 15) (if found header eol then eol else len header)

-- Whether the bytes after the header are as many as it states.
unfoldable pub is_complete : Reading → Bool
is_complete r = elim r.header_end_pos [
  | none ↦ false
  | some at ↦ leb r.content_length (len r.raw - at - 4)
]

-- `stoul` is `std::stoul`; none where it throws.
module _ (stoul : String → Option ℕ) where
  unfoldable pub length_of : String → Option ℕ
  unfolding length_pos length_text
  length_of header =
      let cl_pos = length_pos header in
      if found header cl_pos then stoul (length_text header cl_pos) else some 0

  -- Looks for the header's end until it is found; none if reading the length throws.
  unfoldable pub find_header : Reading → Option Reading
  unfolding length_of
  find_header r = elim r.header_end_pos [
    | some at ↦ some r
    | none ↦
        let at = find r.raw "\r\n\r\n" in
        if found r.raw at
        then length_of (slice r.raw 0 at)
          >>= (λ n. some (record r { header_end_pos = some at; content_length = n }))
        else some r
  ]

  unfoldable pub read_chunk : String → Reading → Option Reading
  unfolding find_header
  read_chunk bytes r = find_header (record r { raw = String.◌++◌ r.raw bytes })

  -- The loop over what the reads give, until the request is complete or no read gives more; with what
  -- is left unread. None if an exception leaves it.
  unfoldable pub read_request : List String → Reading → Option (Reading × List String)
  unfolding read_chunk is_complete
  read_request [] r = some (r, [])
  read_request (bytes ∷ more) r = read_chunk bytes r >>= (λ r'.
      let rest = read_request more r' in if is_complete r' then some (r', more) else rest)
