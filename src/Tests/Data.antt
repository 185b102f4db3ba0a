-- ===== src/Tests/Data.antt =====
-- Codecs, a hash and file stores to run the model with.
use kbfs.Prelude.{
  ℕ, zero, suc, ◌≡◌, refl, false, none, List, [], ◌∷◌, Result, ok, err, codec_fault, length, arith,
}
use kbfs.Prelude.Chain.{◌>>=◌}
use kbfs.FileStore.{Bytes, Store}
use kbfs.Codec.{Codec}
use kbfs.BlockServer.Refs.{BlockContext}
use kbfs.BlockServer.TlfJournal.{
  BserverJournalEntry, BserverOp, block_put_op, add_ref_op, remove_refs_op, archive_refs_op,
  other_op,
}
use kbfs.BlockServer.TlfJournal.Consistent.{Encodes}

-- A number is one byte too large for a byte, which the model does not mind.
abbrev pub decode_number : Bytes → Result ℕ
decode_number [] = err codec_fault
decode_number (n ∷ _) = ok n

pub decode-encode_number : (n : ℕ) (b : Bytes) → ok (n ∷ []) ≡ ok b → decode_number b ≡ ok n
decode-encode_number n b h = ground arith

abbrev pub number_codec : Codec ℕ
number_codec = record {
  encode = λ n. ok (n ∷ []);
  decode = decode_number;
  decode-encode = decode-encode_number;
}

abbrev pub op_code : BserverOp → ℕ
op_code block_put_op = 0
op_code add_ref_op = 1
op_code remove_refs_op = 2
op_code archive_refs_op = 3
op_code other_op = 4

abbrev pub code_op : ℕ → BserverOp
code_op zero = block_put_op
code_op (suc zero) = add_ref_op
code_op (suc (suc zero)) = remove_refs_op
code_op (suc (suc (suc zero))) = archive_refs_op
code_op (suc (suc (suc (suc n)))) = other_op

code_op-op_code : (op : BserverOp) → code_op (op_code op) ≡ op
code_op-op_code block_put_op = refl
code_op-op_code add_ref_op = refl
code_op-op_code remove_refs_op = refl
code_op-op_code archive_refs_op = refl
code_op-op_code other_op = refl

abbrev pub encode_contexts : List BlockContext → Bytes
encode_contexts [] = []
encode_contexts (c ∷ cs) = c.creator ∷ c.writer ∷ c.ref_nonce ∷ encode_contexts cs

abbrev pub decode_contexts : Bytes → Result (List BlockContext)
decode_contexts [] = ok []
decode_contexts (a ∷ b ∷ c ∷ rest) =
    decode_contexts rest >>= (λ cs. ok (record { creator = a; writer = b; ref_nonce = c } ∷ cs))
decode_contexts _ = err codec_fault

decode-encode_contexts : (cs : List BlockContext) → decode_contexts (encode_contexts cs) ≡ ok cs
decode-encode_contexts [] = refl
decode-encode_contexts (c ∷ cs) = ground (arith, decode-encode_contexts cs)

abbrev pub decode_entry : Bytes → Result BserverJournalEntry
decode_entry (op ∷ id ∷ rest) =
    decode_contexts rest >>= (λ cs. ok (record { op = code_op op; id = id; contexts = cs }))
decode_entry _ = err codec_fault

abbrev pub encode_entry : BserverJournalEntry → Bytes
encode_entry e = op_code e.op ∷ e.id ∷ encode_contexts e.contexts

decode-encode_entry : (e : BserverJournalEntry) → decode_entry (encode_entry e) ≡ ok e
decode-encode_entry e = ground (arith, decode-encode_contexts e.contexts, code_op-op_code e.op)

pub decode-encode_ok :
    (e : BserverJournalEntry) (b : Bytes) → ok (encode_entry e) ≡ ok b → decode_entry b ≡ ok e
decode-encode_ok e b h = ground (arith, decode-encode_entry e)

abbrev pub entry_codec : Codec BserverJournalEntry
entry_codec = record {
  encode = λ e. ok (encode_entry e);
  decode = decode_entry;
  decode-encode = decode-encode_ok;
}

pub encodes : Encodes entry_codec
encodes = record { bytes = λ e. encode_entry e; encodes = λ e. refl }

-- A "hash" for the runs.
abbrev pub length_hash : Bytes → Result ℕ
length_hash b = ok (length b)

abbrev pub empty_store : {P : Type 0} → Store P
empty_store = record { files = λ p. none; unreadable = λ p. false; unwritable = λ p. false }
