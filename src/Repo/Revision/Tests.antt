-- ===== src/Repo/Revision/Tests.antt =====
-- The theorems on revisions at one put to an empty repository.
use manapds.Prelude.{
  List, Option, Str, [], drop, drop-append, length, none, refl, some, suc, take, take-append, true,
  zero, ℕ, ◌++◌, ◌∷◌, ◌≡◌, ◌⊎◌,
}
use manapds.Prelude.Bytes.{codes, str_lt}
use manapds.Prelude.Search.{mem}
use manapds.Prelude.Map
use manapds.Prelude.Result.{Result, ok, err, ◌>>=◌}
use manapds.Syntax.Tid
use manapds.Repo.{Cid, Error}
use manapds.Repo.Block
use manapds.Repo.Block.{BlockMap, store_of}
use manapds.Repo.Commit.{sign, Commit, Codec, Keypair, PublicKey}
use manapds.Repo.Mst.{Reader, empty, load}
use manapds.Repo.Mst.Key
use manapds.Repo.Mst.Stored
use manapds.Repo.Mst.Node
use manapds.Repo.Mst.Layer
use manapds.Repo.Mst.Find
use manapds.Repo.Mst.Edit
use manapds.Repo.Mst.Delete
use manapds.Repo.Mst.Blocks
use manapds.Repo.Mst.Walk
use manapds.Repo.Mst.Dropped
use manapds.Repo.Mst.Samples.{digest}
use manapds.Repo.Write
use manapds.Repo.Write.{Records, put, create}
use manapds.Repo.Revision.{State, apply, load_repo, verify}
use manapds.Repo.Revision.Steps.{apply-keeps}
use manapds.Repo.Revision.Next.{IsPair, IsCodec, apply-next}

program : Unit {0}
unfolding apply sign Key.leading_zeros8 Key.leading_zeros_in Key.leading_zeros Key.shared_prefix
    Key.is_key_byte Key.is_path_of Key.ensure_valid_key Stored.deserialize_from Stored.deserialize
    Node.is_seen Node.node Node.fill Node.position_of Node.index_of Node.serialize_from
    Node.serialize Node.node_data Node.hash_node Node.root_in Layer.leaf_layer Layer.subtree_layer
    Layer.find_layer Layer.layer Find.get_under Find.get_here Find.get_in Find.get Find.path_under
    Find.path_here Find.cids_for_path_in Find.cids_for_path Find.collect_entries Find.collect_leaves
    Find.leaves Edit.pop_tree Edit.split_last Edit.split_around Edit.into_parent Edit.raise
    Edit.insert_above Edit.insert_below Edit.insert_here Edit.insert_within Edit.insert Edit.add
    Edit.update_under Edit.update_here Edit.update_in Edit.update Delete.join Delete.append_merge
    Delete.delete_leaf Delete.put_shrunk Delete.delete_under Delete.delete_here
    Delete.delete_recurse Delete.trim_filled Delete.trim_top Delete.delete Blocks.root
    Blocks.unstored_entries Blocks.unstored_blocks_in Blocks.unstored_blocks Walk.set_insert
    Walk.set_remove Walk.diff_add Walk.diff_remove Walk.level_of Walk.walker Walk.entry_in Walk.at
    Walk.key Walk.height Walk.cid_at Walk.cid Walk.pop_levels Walk.step_over Walk.enter
    Walk.into_entry Walk.step_into Walk.advance Dropped.drop_left Dropped.gain_right
    Dropped.open_left Dropped.open_right Dropped.same_key Dropped.leaves_round
    Dropped.trees_compared Dropped.trees_round Dropped.mixed_round Dropped.both_round Dropped.round
    Dropped.rounds Dropped.dropped Write.put_in Write.target Write.record_in Write.key
    Write.check_record Write.check_all Write.encode_then Write.apply_one Write.apply_all Write.apply
    Tid.is_digit Tid.is_first_digit Tid.validate Tid.parse Tid.digit Tid.digit_char Tid.encode_from
    Tid.encode Tid.from_parts Tid.push_digit Tid.to_parts Tid.now_micros Tid.saturating_add64
    Tid.mint Tid.mint_after Block.read Block.add Block.merge Block.store_of Map.lookup
    Map.contains_key Map.insert Map.retain Map.remove
program = tt

-- A codec that writes the length of a text in front of it.
abbrev sized : Str → Str → Str
sized text rest = length text ∷ (text ++ rest)

abbrev field : Str → Result Error (Str × Str)
field [] = err (Error.decode "too short")
field (n ∷ rest) = ok (take n rest, drop n rest)

abbrev number : Str → Result Error (ℕ × Str)
number [] = err (Error.decode "too short")
number (n ∷ rest) = ok (n, rest)

abbrev write_prev : Option Cid → Str → Str
write_prev none rest = 0 ∷ rest
write_prev (some cid) rest = 1 ∷ sized cid rest

abbrev read_prev : Str → Result Error (Option Cid × Str)
read_prev [] = err (Error.decode "too short")
read_prev (zero ∷ rest) = ok (none, rest)
read_prev (suc n ∷ rest) = do (cid, rest) ← field rest; ok (some cid, rest)

abbrev encode_commit : Commit → Str
encode_commit c =
    sized c.did.text
      (c.version ∷ sized c.root (sized c.rev.text (write_prev c.prev (sized c.sig []))))

abbrev decode_commit : Str → Result Error Commit
decode_commit bytes = do
  (did, bytes) ← field bytes
  (version, bytes) ← number bytes
  (root, bytes) ← field bytes
  (rev, bytes) ← field bytes
  (prev, bytes) ← read_prev bytes
  (sig, bytes) ← field bytes
  ok (record {
    did = record { text = did };
    version = version;
    root = root;
    rev = record { text = rev };
    prev = prev;
    sig = sig;
  })

field-sized : (text rest : Str) → field (sized text rest) ≡ ok (text, rest)
field-sized text rest = rw (take-append text rest, drop-append text rest) refl

read-write_prev :
    (prev : Option Cid) (rest : Str) → read_prev (write_prev prev rest) ≡ ok (prev, rest)
read-write_prev none rest = refl
read-write_prev (some cid) rest = rw (take-append cid rest, drop-append cid rest) refl

abbrev codec : Codec
codec = record {
  encode_unsigned = λ u. ok (u.did.text ++ (u.root ++ u.rev.text));
  encode = λ c. ok (encode_commit c);
  decode = decode_commit;
}

decode-encode_commit : (c : Commit) → decode_commit (encode_commit c) ≡ ok c
decode-encode_commit c = simp (take-append, drop-append, read-write_prev)

codec-IsCodec : IsCodec codec
codec-IsCodec = record {
  decode-encode =
      λ c bytes h. let e : encode_commit c ≡ bytes = cc h in rw (← e) (decode-encode_commit c);
}

abbrev sign_with : Keypair
sign_with message = 7 ∷ message

abbrev takes_all : PublicKey
takes_all message signature = ok tt

pair : IsPair sign_with takes_all
pair = record { takes = λ message. refl }

abbrev reader : Reader
reader = record {
  store = store_of [];
  sha256 = digest;
  cid_for = λ bytes. 1 ∷ bytes;
  encode = λ node. ok (length node.e ∷ []);
  decode = λ bytes. err (Error.decode "none here");
}

abbrev plain : Records Str
plain = record { encode = λ bytes. ok bytes; named = λ bytes. none }

abbrev rev : Tid.Tid
rev = record { text = codes "3jqfcqzm4fc2j" }

abbrev before : State
before = record {
  repo = record {
    cid = 4 ∷ [];
    commit = record {
      did = record { text = codes "did:web:a.test" };
      version = 3;
      root = 1 ∷ 0 ∷ [];
      rev = rev;
      prev = none;
      sig = [];
    };
    tree = empty;
  };
  clock = record { last = 5; clock_id = 3 };
}

abbrev writes : List (Write.Write Str)
writes =
    put (record { text = codes "app.test.post" }) (record { text = codes "b" }) (codes "hello") ∷ []

rev_parses : Tid.parse (codes "3jqfcqzm4fc2j") ≡ ok rev
unfolding Tid.parse Tid.validate Tid.is_digit Tid.is_first_digit
rev_parses = refl

abbrev run : State × Option (Result Error (BlockMap × List Cid))
run = apply 20 none reader codec plain sign_with writes before

abbrev handed : Option (Result Error (BlockMap × List Cid)) → BlockMap × List Cid
handed (some (ok given_back)) = given_back
handed _ = ([], [])

abbrev blocks : BlockMap
blocks = (handed run.1).0

abbrev gone : List Cid
gone = (handed run.1).1

ran : run ≡ (run.0, some (ok (blocks, gone)))
unfolding program
ran = refl

apply-next_example :
    (run.0.repo.commit.did ≡ before.repo.commit.did)
    × (str_lt rev.text run.0.repo.commit.rev.text ≡ true)
    × (verify codec run.0.repo takes_all ≡ ok tt)
    × (load_repo codec (store_of blocks) run.0.repo.cid
        ≡ ok (record run.0.repo { tree = load run.0.repo.commit.root }))
    × ((run.0.repo.cid ≡ before.repo.cid) ⊎ (mem before.repo.cid gone ≡ true))
apply-next_example =
    apply-next 20 none reader codec plain sign_with takes_all writes before run.0 blocks gone pair
      codec-IsCodec rev_parses ran

-- A second write to a key that is to be new.
abbrev clash : List (Write.Write Str)
clash =
    create (record { text = codes "app.test.post" }) (record { text = codes "b" }) (codes "one")
    ∷ create (record { text = codes "app.test.post" }) (record { text = codes "b" }) (codes "two")
    ∷ []

clashed :
    (apply 20 none reader codec plain sign_with clash before).1
    ≡ some (err (Error.key_exists (codes "app.test.post/b")))
unfolding program
clashed = refl

apply-keeps_example : (apply 20 none reader codec plain sign_with clash before).0.repo ≡ before.repo
apply-keeps_example =
    apply-keeps 20 none reader codec plain sign_with clash before
      (Error.key_exists (codes "app.test.post/b")) clashed
