-- ===== src/Maintenance/Update/Outcome.antt =====
-- What the answer true of an update means.
use mathlib.Core.Bool.{false≢true}
use antsdr_dfone.Prelude.{
  ℕ, zero, suc, ◌≤◌, ◌≡◌, ◌≢◌, refl, sym, ap, ◌∙◌, true, false, [], ◌++◌, Option, some, none, arith,
  ◌==◌, if◌then◌else◌, length, take, Bytes, codes, append_assoc,
}
use antsdr_dfone.Net.{Socket}
use antsdr_dfone.Maintenance.Service.{Answer, fails, gives, send_all}
use antsdr_dfone.Maintenance.Service.Payload.{send_all-none}
use antsdr_dfone.Maintenance.Service.Requests.{Maintenance, Resolver, connect_service}
use antsdr_dfone.Maintenance.Update.Upload.{Uploads, file_loop-Uploads}
use antsdr_dfone.Maintenance.Update.{
  UpdateConfig, Files, send_file_stream, Update, run_events, Updated, not_updated, end_update,
  update_header, update_on, size_error, update_connected, update_sized, update_resolved,
  update_firmware,
}

-- What an update that answered true has done on the socket `s`.
pub record IsUpdated (files : Files) (c : UpdateConfig) (s : Socket) (o : Updated) : Type 0 where
  pub path : Bytes
  pub resolved : files.resolve c.package_path ≡ gives path
  pub size : ℕ
  pub sized : files.file_size path ≡ gives size
  pub not_empty : size ≢ 0
  pub bytes : Bytes
  pub opened : files.content path ≡ some bytes
  pub enough : size ≤ length bytes
  pub left : Socket
  pub on_socket : o.socket ≡ some left
  pub on_wire : left.wire ≡ s.wire ++ (update_header c size ++ take size bytes)
  pub no_failure : o.object.last_error ≡ []

-- The file that was sent.
record SendsFile (s : Socket) (path : Bytes) (content : Option Bytes) (size : ℕ) (t : Socket)
    : Type 0 where
  bytes : Bytes
  opened : content ≡ some bytes
  uploads : Uploads s bytes size t

send_file_stream-SendsFile :
    (s : Socket) (path : Bytes) (content : Option Bytes) (size : ℕ)
    → (send_file_stream s path content size).0 ≡ none
    → SendsFile s path content size (send_file_stream s path content size).1
unfolding send_file_stream
send_file_stream-SendsFile s path none size e = absurd cc
send_file_stream-SendsFile s path (some bytes) size e = record {
  bytes = bytes;
  opened = refl;
  uploads = file_loop-Uploads (suc size) s bytes size e;
}

-- The end of an update, by the failures of the two sends.
abbrev after_sends : Maintenance → Socket → Socket → Option Bytes → Option Bytes → Updated
after_sends m s1 s2 failure failure' = elim failure [
  | some e ↦ not_updated m [] e (some s1)
  | none ↦ elim failure' [
    | some e ↦ not_updated m [] e (some s2)
    | none ↦
        end_update m s2
          (run_events (record { stream = s2.incoming; output = []; complete = false }))
  ]
]

module _ (files : Files) (m : Maintenance) (c : UpdateConfig) (path : Bytes) (size : ℕ) (s : Socket)
    (resolved : files.resolve c.package_path ≡ gives path)
    (sized : files.file_size path ≡ gives size) (not_empty : size ≢ 0) where
  abbrev s1 : Socket
  s1 = (send_all s (update_header c size)).1

  abbrev s2 : Socket
  s2 = (send_file_stream s1 path (files.content path) size).1

  end_update-IsUpdated :
      (r : Option Bytes × Update)
      → (send_all s (update_header c size)).0 ≡ none
      → (send_file_stream s1 path (files.content path) size).0 ≡ none
      → (end_update m s2 r).done ≡ true
      → IsUpdated files c s (end_update m s2 r)
  end_update-IsUpdated (some e, u) p q d = absurd (false≢true d)
  end_update-IsUpdated (none, u) p q d =
      let w = send_all-none s (update_header c size) p in
      let f = send_file_stream-SendsFile s1 path (files.content path) size q in
      record {
        path = path;
        resolved = resolved;
        size = size;
        sized = sized;
        not_empty = not_empty;
        bytes = f.bytes;
        opened = f.opened;
        enough = f.uploads.enough;
        left = record s2 { incoming = u.stream };
        on_socket = refl;
        on_wire =
            f.uploads.on_wire
            ∙ ap (λ x. x ++ take size f.bytes) w.0
            ∙ append_assoc s.wire (update_header c size) (take size f.bytes);
        no_failure = refl;
      }

  after_sends-IsUpdated :
      (failure failure' : Option Bytes)
      → (send_all s (update_header c size)).0 ≡ failure
      → (send_file_stream s1 path (files.content path) size).0 ≡ failure'
      → (after_sends m s1 s2 failure failure').done ≡ true
      → IsUpdated files c s (after_sends m s1 s2 failure failure')
  after_sends-IsUpdated (some e) failure' p q d = absurd (false≢true d)
  after_sends-IsUpdated none (some e) p q d = absurd (false≢true d)
  after_sends-IsUpdated none none p q d =
      end_update-IsUpdated
        (run_events (record { stream = s2.incoming; output = []; complete = false })) p q d

  update_on-IsUpdated :
      (update_on files m c path size s).done ≡ true
      → IsUpdated files c s (update_on files m c path size s)
  unfolding update_on
  update_on-IsUpdated d =
      after_sends-IsUpdated (send_all s (update_header c size)).0
        (send_file_stream s1 path (files.content path) size).0 refl refl d

module _ (r : Resolver) (files : Files) (m : Maintenance) (c : UpdateConfig) (output : Bytes)
    (s : Socket) (connects : connect_service r m.endpoint ≡ gives s) where
  update_sized-IsUpdated :
      (path : Bytes) (a : Answer ℕ)
      → files.resolve c.package_path ≡ gives path
      → files.file_size path ≡ a
      → (update_sized r files m c output path a).done ≡ true
      → IsUpdated files c s (update_sized r files m c output path a)
  update_sized-IsUpdated path (fails e) p q d = absurd (false≢true d)
  update_sized-IsUpdated path (gives zero) p q d = absurd (false≢true d)
  update_sized-IsUpdated path (gives (suc n)) p q d =
      let positive : (suc n == 0) ≡ false = ground arith in
      let same : update_sized r files m c output path (gives (suc n))
          ≡ update_on files m c path (suc n) s =
        ap
          (λ b.
            if b
            then not_updated m output (size_error (codes "empty file")) none
            else update_connected files m c output path (suc n) (connect_service r m.endpoint))
          positive
        ∙ ap (update_connected files m c output path (suc n)) connects in
      rw same (
        update_on-IsUpdated files m c path (suc n) s p q (λ e. absurd (omega arith))
          (ap (λ (o : Updated). o.done) (sym same) ∙ d))

  update_resolved-IsUpdated :
      (a : Answer Bytes)
      → files.resolve c.package_path ≡ a
      → (update_resolved r files m c output a).done ≡ true
      → IsUpdated files c s (update_resolved r files m c output a)
  update_resolved-IsUpdated (fails e) p d = absurd (false≢true d)
  update_resolved-IsUpdated (gives path) p d =
      update_sized-IsUpdated path (files.file_size path) p refl d

  -- When `update_firmware` answers true on the socket that was connected, the package was found and
  -- is not empty, and the header and then exactly the size of the file that it announces, from the
  -- file's beginning, have gone out, and nothing else; and `last_error` is empty.
  pub update_firmware-IsUpdated :
      (update_firmware r files m c output).done ≡ true
      → IsUpdated files c s (update_firmware r files m c output)
  unfolding update_firmware
  update_firmware-IsUpdated d = update_resolved-IsUpdated (files.resolve c.package_path) refl d
