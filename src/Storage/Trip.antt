-- ===== src/Storage/Trip.antt =====
-- src/data/DataStorage.cpp: a bundle that `save` wrote, read by `load`.
use lib_stereo_camera.Common.{
  signed64, signed64_small, take_whole, ℕ, ◌^◌, ◌%◌, ◌<◌, ◌≤◌, ◌≡◌, refl, sym, ap, ap₂, ◌∙◌, arith,
  String, List, [], ◌∷◌, ◌++◌, Bool, true, Option, some, ◌>>=◌, length, take, drop, replicate,
  take-append, drop-append_self, drop_all, append-nil, length-append, length-replicate,
  length-take-append-replicate, lookup-insert, if_pos, lookup, string_discrete,
}
use lib_stereo_camera.Types.{DataBundle, data_type_to_channel}
use lib_stereo_camera.Client.{Json, string, integer}
use lib_stereo_camera.Json.{JsonOps, IsJson, natural, at-members_of}
use lib_stereo_camera.Pipeline.Encode.{bytes_of_u32}
use lib_stereo_camera.Pipeline.Encode.Split.{u32_of_bytes-bytes_of_u32}
use lib_stereo_camera.Storage.{
  FileStorage, ByteFiles, storage_path, bundle_json, read_over, resize, file_bytes, save_bundle,
  load_payload, load_type, type_member, load_nsec, load_sec, load_json, load_text, load_sized,
  load_bytes, load_bundle,
}

read_over_whole :
    (old xs ys : List ℕ) → length old ≡ length xs → read_over old (xs ++ ys) ≡ (xs, ys)
unfolding read_over
read_over_whole old xs ys same =
    let enough : length old ≤ length (xs ++ ys) = omega (arith, length-append xs ys) in
    ap₂ (λ us vs. (us, vs))
      (ap (λ n. take n (xs ++ ys) ++ drop (length (xs ++ ys)) old) same
        ∙ ap₂ (λ us vs. us ++ vs) (take-append xs ys) (drop_all (length (xs ++ ys)) old enough)
        ∙ append-nil xs)
      (ap (λ n. drop n (xs ++ ys)) same ∙ drop-append_self xs ys)

length-resize : (n : ℕ) (xs : List ℕ) → length (resize n xs) ≡ n
unfolding resize
length-resize n xs = length-take-append-replicate n xs 0

at_bind :
    {A B : Type 0} {o : Option A} (f : A → Option B) {x : A} {y : B}
    → o ≡ some x
    → f x ≡ some y
    → (o >>= f) ≡ some y
at_bind f e e' = ap (λ z. z >>= f) e ∙ e'

length-bytes_of_u32 : (n : ℕ) → length (bytes_of_u32 n) ≡ 4
unfolding bytes_of_u32
length-bytes_of_u32 n = refl

-- `lib`, `get_time` and `get_size` are those of `load`, here with what is documented of them.
module _ {R : Type 0} (lib : JsonOps R) (json : IsJson lib) (parse_bytes : List ℕ → Option (Json R))
    (dump : Json R → List ℕ) (get_time get_size : Json R → Option ℕ)
    (time_back : (n : ℕ) → n < 2 ^ 63 → get_time (natural n) ≡ some n)
    (size_back : (n : ℕ) → n < 2 ^ 63 → get_size (natural n) ≡ some n) where
  -- The bundle that `load` fills from a bundle's JSON and the bytes that follow it.
  abbrev filled : DataBundle → List ℕ → DataBundle → DataBundle
  filled b rest old = record {
    address = old.address;
    timestamp = b.timestamp;
    type = b.type;
    payload = (read_over (resize (length b.payload) old.payload) rest).0;
  }

  load_sec_lem :
      (j : Json R) (b old : DataBundle) (rest : List ℕ)
      → (lib.at "timestamp_sec" j >>= get_time) ≡ some b.timestamp.sec
      → (lib.at "timestamp_nsec" j >>= get_time) ≡ some b.timestamp.nsec
      → lib.at "data_type" j ≡ some (string (data_type_to_channel b.type))
      → (lib.at "payload_size" j >>= get_size) ≡ some (length b.payload)
      → load_sec lib parse_bytes dump get_time get_size j rest old ≡ (filled b rest old, some true)
  unfolding load_sec load_nsec load_type type_member load_payload
  load_sec_lem j b old rest sec nsec type len =
      rw
        (
          load_sec,
          sec,
          load_nsec,
          nsec,
          load_type,
          load_payload,
          len,
          type,
          type_member,
          json.get_type_string b.type,
        )
        refl

  load_members_lem :
      (b old : DataBundle) (rest : List ℕ)
      → b.timestamp.sec < 2 ^ 63
      → b.timestamp.nsec < 2 ^ 63
      → length b.payload < 2 ^ 63
      → load_sec lib parse_bytes dump get_time get_size (bundle_json b) rest old
        ≡ (filled b rest old, some true)
  unfolding bundle_json lookup string_discrete
  load_members_lem b old rest sec nsec len =
      let members : List (String × Json R) =
        ("timestamp_sec", integer (signed64 b.timestamp.sec))
        ∷ ("timestamp_nsec", integer (signed64 b.timestamp.nsec))
        ∷ ("data_type", string (data_type_to_channel b.type))
        ∷ ("payload_size", natural (length b.payload))
        ∷ [] in
      load_sec_lem (bundle_json b) b old rest
        (at_bind get_time
          (at-members_of json "timestamp_sec" members refl
            ∙ ap (λ n. some (integer n)) (signed64_small b.timestamp.sec sec))
          (time_back b.timestamp.sec sec))
        (at_bind get_time
          (at-members_of json "timestamp_nsec" members refl
            ∙ ap (λ n. some (integer n)) (signed64_small b.timestamp.nsec nsec))
          (time_back b.timestamp.nsec nsec))
        (at-members_of json "data_type" members refl)
        (at_bind get_size (at-members_of json "payload_size" members refl)
          (size_back (length b.payload) len))

  load_bytes_lem :
      (b old : DataBundle) (garbage rest : List ℕ)
      → b.timestamp.sec < 2 ^ 63
      → b.timestamp.nsec < 2 ^ 63
      → length b.payload < 2 ^ 63
      → length garbage ≡ 4
      → length (dump (bundle_json b)) < 2 ^ 32
      → parse_bytes (dump (bundle_json b)) ≡ some (bundle_json b)
      → load_bytes lib parse_bytes dump get_time get_size garbage
          (some (bytes_of_u32 (length (dump (bundle_json b))) ++ (dump (bundle_json b) ++ rest)))
          old
        ≡ (filled b rest old, some true)
  unfolding load_bytes load_sized load_text load_json
  load_bytes_lem b old garbage rest sec nsec len four short back =
      let json_str = dump (bundle_json b) in
      let loaded = load_text lib parse_bytes dump get_time get_size in
      ap (λ p. load_sized lib parse_bytes dump get_time get_size p old)
        (read_over_whole garbage (bytes_of_u32 (length json_str)) (json_str ++ rest)
          (four ∙ sym (length-bytes_of_u32 (length json_str))))
      ∙ ap (λ n. loaded (read_over (replicate n 0) (json_str ++ rest)) old)
          (u32_of_bytes-bytes_of_u32 (length json_str) short)
      ∙ ap (λ p. loaded p old)
          (read_over_whole (replicate (length json_str) 0) json_str rest
            (length-replicate (length json_str) 0))
      ∙ ap (λ j. load_json lib parse_bytes dump get_time get_size j rest old) back
      ∙ load_members_lem b old rest sec nsec len

  -- What `save` writes: the sizes fit, so nothing is cut off.
  file_bytes_lem :
      (b : DataBundle)
      → length (dump (bundle_json b)) < 2 ^ 32
      → file_bytes lib parse_bytes dump get_time get_size b
        ≡ bytes_of_u32 (length (dump (bundle_json b))) ++ (dump (bundle_json b) ++ b.payload)
  unfolding file_bytes
  file_bytes_lem b short =
      let json_str = dump (bundle_json b) in
      ap (λ n. bytes_of_u32 n ++ (take n json_str ++ b.payload)) {x = length json_str % 2 ^ 32}
        {y = length json_str} (omega arith)
      ∙ ap (λ xs. bytes_of_u32 (length json_str) ++ (xs ++ b.payload)) (take_whole json_str)

  filled_whole :
      (b old : DataBundle) → filled b b.payload old ≡ (record b { address = old.address })
  filled_whole b old =
      ap (λ p. record b { address = old.address; payload = p })
        (ap (λ xs. (read_over (resize (length b.payload) old.payload) xs).0)
            (sym (append-nil b.payload))
          ∙ ap (λ p. p.0)
              (read_over_whole (resize (length b.payload) old.payload) b.payload []
                (length-resize (length b.payload) old.payload)))

  -- If the directory can be made and the file opened, the bundle's times and size fit an `int64_t`,
  -- its JSON has fewer than 2^32 bytes and the library reads back what it dumped, `save` reports
  -- success, and `load` then succeeds and fills any bundle with the saved time, type and payload,
  -- whatever the bundle held and whatever `json_size` was before it was read.
  pub load-save :
      (makes opens : String → Bool) (st : FileStorage) (path : String) (b old : DataBundle)
      (files : ByteFiles) (garbage : List ℕ)
      → makes (storage_path st path) ≡ true
      → opens (storage_path st path) ≡ true
      → b.timestamp.sec < 2 ^ 63
      → b.timestamp.nsec < 2 ^ 63
      → length b.payload < 2 ^ 63
      → length garbage ≡ 4
      → length (dump (bundle_json b)) < 2 ^ 32
      → parse_bytes (dump (bundle_json b)) ≡ some (bundle_json b)
      → let (after, saved) =
          save_bundle lib parse_bytes dump get_time get_size makes opens st path b files in
        (saved ≡ some true)
        × (load_bundle lib parse_bytes dump get_time get_size garbage after st path old
            ≡ (record b { address = old.address }, some true))
  unfolding save_bundle load_bundle
  load-save makes opens st path b old files garbage made opened sec nsec len four short back =
      let full = storage_path st path in
      let bytes = file_bytes lib parse_bytes dump get_time get_size b in
      let load_file = load_bytes lib parse_bytes dump get_time get_size garbage in
      rw (made, opened)
        (
          refl,
          ap (λ f. load_file f old)
                (lookup-insert string_discrete full full bytes files
                  ∙ if_pos (string_discrete full full) refl (some bytes)
                      (lookup string_discrete full files)
                  ∙ ap some (file_bytes_lem b short))
              ∙ load_bytes_lem b old garbage b.payload sec nsec len four short back
              ∙ ap (λ c. (c, some true)) (filled_whole b old),
        )
