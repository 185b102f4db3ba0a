-- ===== src/Tests/Metadata.antt =====
-- The storage of metadata at concrete inputs.
use kbfs.Prelude.{
  ℕ, ◌≡◌, ◌∙◌, sym, ap, refl, true, false, Bool, some, [], ◌∷◌, Result, ok, err, codec_fault, arith,
  if◌then◌else◌, Bool-cases, inl, inr, ◌==◌, ◌⊎◌,
}
use kbfs.Prelude.Int.{ℤ, pos, negsuc}
use kbfs.FileStore.{same_bytes→eq, Bytes, same_bytes, IsHealthy}
use kbfs.Codec.{Codec}
use kbfs.DiskJournal.{
  append_journal_entry, read_journal_entry, read_earliest_ordinal, read_latest_ordinal,
  next_ordinal,
}
use kbfs.Ordinal.{ordinal_string, make_journal_ordinal, hex_digits, hex_digit, hex_value, parse_hex}
use kbfs.Revision.{next_revision, ordinal_to_revision, revision_to_ordinal, to_int64}
use kbfs.BranchJournal.{append, get_head, read_latest_revision, read_md_id}
use kbfs.RootMetadata.{
  RootMetadata, BareTlfHandle, expected_usage, check_valid_successor_for_server, merged_status,
  is_writer, is_handle_reader,
}
use kbfs.MdServer.TlfStorage.{
  MdServerTlfStorage, MdParams, make_md_server_tlf_storage, get_head_for_tlf, branch_journal,
  get_md, put_md, write_md, get_or_create_branch_journal, is_writer_or_valid_rekey,
}
use kbfs.MdServer.TlfStorage.Put.{put, check_put, find_head, store_md}
use kbfs.MdServer.TlfStorage.Successor.{put-successor, put-authorized}
use kbfs.MdServer.TlfStorage.Head.{get_head_for_tlf-put}
use kbfs.Tests.Data.{number_codec, empty_store}

abbrev flag : Bool → ℕ
flag true = 1
flag false = 0

abbrev encode_revision : ℤ → Bytes → Bytes
encode_revision (pos n) rest = 0 ∷ n ∷ rest
encode_revision (negsuc n) rest = 1 ∷ n ∷ rest

abbrev pub encode_md : RootMetadata → Bytes
encode_md m = encode_revision m.revision (
    m.tlf_id
    ∷ m.branch_id
    ∷ m.prev_root
    ∷ flag m.is_unmerged
    ∷ flag m.is_final
    ∷ flag m.is_rekey_set
    ∷ flag m.is_writer_metadata_copied
    ∷ m.disk_usage
    ∷ m.ref_bytes
    ∷ m.unref_bytes
    ∷ m.others)

abbrev decode_md : Bytes → Result RootMetadata
decode_md (sign ∷ n ∷ a ∷ b ∷ c ∷ d ∷ e ∷ k ∷ f ∷ g ∷ h ∷ i ∷ rest) = ok (record {
  tlf_id = a;
  revision = if sign == 0 then pos n else negsuc n;
  branch_id = b;
  prev_root = c;
  is_unmerged = d == 1;
  is_final = e == 1;
  is_rekey_set = k == 1;
  is_writer_metadata_copied = f == 1;
  disk_usage = g;
  ref_bytes = h;
  unref_bytes = i;
  others = rest;
})
decode_md _ = err codec_fault

flag_lem : (b : Bool) → (flag b == 1) ≡ b
flag_lem true = refl
flag_lem false = refl

decode_md-encode_md : (m : RootMetadata) → decode_md (encode_md m) ≡ ok m
decode_md-encode_md m = ground (
  arith,
  flag_lem m.is_unmerged,
  flag_lem m.is_final,
  flag_lem m.is_rekey_set,
  flag_lem m.is_writer_metadata_copied,
)

pub decode_md-encode_ok :
    (m : RootMetadata) (b : Bytes) → ok (encode_md m) ≡ ok b → decode_md b ≡ ok m
decode_md-encode_ok m b h = ap (bind_decode) (sym h) ∙ decode_md-encode_md m
  where
    bind_decode : Result Bytes → Result RootMetadata
    bind_decode (ok b) = decode_md b
    bind_decode (err e) = err e

abbrev md_codec : Codec RootMetadata
md_codec = record {
  encode = λ m. ok (encode_md m);
  decode = decode_md;
  decode-encode = decode_md-encode_ok;
}

-- The first revision of folder 5, by user 1, and its successor.
abbrev pub first_md : RootMetadata
first_md = record {
  tlf_id = 5;
  revision = pos 1;
  branch_id = 0;
  prev_root = 0;
  is_unmerged = false;
  is_final = false;
  is_rekey_set = false;
  is_writer_metadata_copied = false;
  disk_usage = 100;
  ref_bytes = 100;
  unref_bytes = 0;
  others = [];
}

abbrev pub second_md : RootMetadata
second_md = record first_md {
  revision = pos 2;
  prev_root = 9;
  disk_usage = 90;
  ref_bytes = 0;
  unref_bytes = 10;
}

-- A "hash" that tells the first revision from all others.
abbrev md_hash : RootMetadata → Result ℕ
md_hash m = ok (if same_bytes (encode_md m) (encode_md first_md) then 9 else 8)

first_md-IsOnly : (other : RootMetadata) → md_hash other ≡ ok 9 → other ≡ first_md
first_md-IsOnly other h = elim (Bool-cases (same_bytes (encode_md other) (encode_md first_md))) [
  | inr differs ↦ absurd (ground arith)
  | inl e ↦
      let path : ok other ≡ ok first_md =
        sym (decode_md-encode_md other)
        ∙ ap decode_md (same_bytes→eq (encode_md other) (encode_md first_md) e)
        ∙ decode_md-encode_md first_md in
      ap (λ r. elim r [ ok m ↦ m | err x ↦ first_md ]) path
]

abbrev folder_handle : BareTlfHandle
folder_handle = record { writers = 1 ∷ []; readers = 2 ∷ [] }

abbrev pub params : MdParams
params = record {
  codec = md_codec;
  id_codec = number_codec;
  make_md_id = md_hash;
  make_bare_tlf_handle = λ m. ok folder_handle;
  is_valid_rekey_request = λ m head uid. ok false;
  public_uid = 99;
}

abbrev no_md : MdServerTlfStorage
no_md = make_md_server_tlf_storage empty_store (λ b. empty_store)

abbrev one_md : MdServerTlfStorage
one_md = (put params 1 first_md no_md).1

abbrev two_mds : MdServerTlfStorage
two_mds = (put params 1 second_md one_md).1

empty_store-IsHealthy : {P : Type 0} → IsHealthy {P = P} empty_store
empty_store-IsHealthy = record { reads = λ q. refl; writes = λ q. refl }

storing : Unit {0}
unfolding make_md_server_tlf_storage put check_put find_head store_md put_md write_md get_md
    get_head_for_tlf branch_journal get_or_create_branch_journal is_writer_or_valid_rekey
    check_valid_successor_for_server merged_status is_writer is_handle_reader expected_usage append
    get_head read_latest_revision read_md_id append_journal_entry read_journal_entry next_ordinal
    read_earliest_ordinal read_latest_ordinal ordinal_string hex_digits hex_digit
    make_journal_ordinal parse_hex hex_value next_revision ordinal_to_revision revision_to_ordinal
    to_int64
storing = tt

get_head_for_tlf-put_example : get_head_for_tlf params 0 one_md ≡ ok (some first_md)
unfolding storing
get_head_for_tlf-put_example =
    get_head_for_tlf-put params 1 1 9 first_md (9 ∷ []) false no_md one_md empty_store-IsHealthy
      empty_store-IsHealthy refl (omega arith) refl refl first_md-IsOnly refl refl

put-successor_example :
    (first_md.is_final ≡ false)
    × (second_md.tlf_id ≡ first_md.tlf_id)
    × (second_md.revision ≡ next_revision first_md.revision)
    × (params.make_md_id first_md ≡ ok second_md.prev_root)
    × (second_md.disk_usage ≡ expected_usage first_md second_md)
unfolding storing
put-successor_example = put-successor params 1 second_md first_md false one_md two_mds refl refl

put-authorized_example :
    (is_writer 1 folder_handle ≡ true)
    ⊎ ((is_handle_reader 99 1 folder_handle ≡ true)
        × (params.is_valid_rekey_request second_md first_md 1 ≡ ok true))
unfolding storing
put-authorized_example =
    put-authorized params 1 second_md first_md folder_handle false one_md two_mds refl refl refl
