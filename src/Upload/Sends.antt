-- ===== src/Upload/Sends.antt =====
-- What an upload sends.
mod Tests
use go_proxmox.Prelude.{
  ℕ, ◌+◌, ◌<◌, ◌≡◌, refl, Bool, true, false, Option, none, some, List, [], ◌∷◌, ◌++◌, arith, ap,
  sym, ◌∙◌, length, length-append, if◌then◌else◌,
}
use go_proxmox.Prelude.Text.{Text, codes, text_eq}
use go_proxmox.Prelude.Text.Laws.{text_eq_iff}
use go_proxmox.Prelude.Int.{pos, two63, wrap64_pos}
use go_proxmox.Prelude.Map.{Map, lookup, insert, lookup-insert}
use go_proxmox.Errors.{Result, ok, err}
use go_proxmox.World.{Request, Event, sent, Env}
use go_proxmox.Client.{State, lift}
use go_proxmox.Client.Response.{handle_response}
use go_proxmox.Vm.{task_of}
use go_proxmox.Client.Ends.{Ends, Ends-bind, Ends-lift}
use go_proxmox.Session.{full_url, send}
use go_proxmox.Session.Sent.{IsRequest}
use go_proxmox.Upload.{
  Multipart, Files, FileInfo, Frame, Place, frame_of, content_length, upload_request, upload_reader,
  is_valid_content, place_args, storage_path, upload,
}

-- A field that the extra arguments do not have, or that would be the file's name, stays.
place_args-keeps :
    (j : Text) (extra : Map Text) (name : Text) (fields : Map Text)
    → (if text_eq j (codes "filename") then Unit {0} else (lookup j extra ≡ none))
    → lookup j (place_args extra name fields).1 ≡ lookup j fields
unfolding place_args lookup
place_args-keeps j [] name fields h = refl
place_args-keeps j ((k, v) ∷ extra) name fields h = ground (
  arith,
  text_eq_iff j (codes "filename"),
  text_eq_iff k (codes "filename"),
  text_eq_iff k j,
  lookup-insert k j v fields,
  place_args-keeps j extra v fields,
  place_args-keeps j extra name (insert k v fields),
)

-- The length of the body is the one that is announced.
content_length-eq :
    (frame : Frame) (bytes : Text)
    → length (frame.header ++ (bytes ++ frame.trailer)) < two63
    → content_length frame (length bytes) ≡ pos (length (frame.header ++ (bytes ++ frame.trailer)))
unfolding content_length
content_length-eq frame bytes h =
    let e : length (frame.header ++ frame.trailer) + length bytes
        ≡ length (frame.header ++ (bytes ++ frame.trailer)) =
      omega (
        arith,
        length-append frame.header frame.trailer,
        length-append frame.header (bytes ++ frame.trailer),
        length-append bytes frame.trailer,
      ) in
    rw e (wrap64_pos _ h)

module _ (env : Env) (multi : Multipart) (files : Files) (p : Place) where
  abbrev pub whole : Frame → Text → Text
  whole frame bytes = frame.header ++ (bytes ++ frame.trailer)

  abbrev pub placed_args : Text → Text → Map Text → Text × Map Text
  placed_args content file extra =
      place_args extra (files.base file) ((codes "content", content) ∷ [])

  -- One request was made, the POST of this body.
  abbrev pub Posted : Text → Text → State → {A : Type 0} → Result A → State → Type 0
  Posted url body s r t =
      (t.client ≡ s.client)
      × ((q : Request) × (t.past ≡ sent q ∷ s.past)
          × IsRequest (codes "POST") url (some body) (sent q))

  module _ (accepts : (n : ℕ) → multi.length_error (pos n) n ≡ none) (s : State)
      (plain : s.client.interceptors ≡ []) where
    reader-Posted :
        (path : Text) (fields : Map Text) (name bytes : Text) (frame : Frame)
        → frame_of multi fields name ≡ ok frame
        → env.request_error (codes "POST") (full_url s.client path) ≡ none
        → length (whole frame bytes) < two63
        → Ends
            (upload_reader env multi path fields name bytes (length bytes) s)
            (Posted (full_url s.client path) (whole frame bytes) s)
    unfolding upload_reader upload_request
    reader-Posted path fields name bytes frame framed good small =
        let url : Text = full_url s.client path in
        let q : Request = upload_request s.client url frame bytes in
        simp
          (
            framed,
            good,
            plain,
            content_length-eq frame bytes small,
            accepts (length (whole frame bytes)),
          )
          (Ends-bind (send env q) (λ res. lift (handle_response env res true)) s
            (Posted url (whole frame bytes) s) (Posted url (whole frame bytes) s)
            (refl, (q, refl, (refl, refl, refl))) (λ a t x. x) (λ e t x. x))

    -- An upload of a file to a storage ends, changes nothing of the client and makes one request,
    -- the POST to the storage's upload path of the header of the multipart form, the bytes of the
    -- file and the end of the form, in this order; and the fields of the form hold no file name,
    -- and the content type where the extra arguments have none. The conditions: the content type is
    -- one of the three; the file is there, is no directory and has the size that is told of it; the
    -- form can be written, and the request can be made; net/http takes a body of the length that is
    -- announced; the body is shorter than 2^63 bytes; and the client has no interceptors.
    pub upload-Posted :
        (content file : Text) (extra : Map Text) (info : FileInfo) (bytes : Text) (frame : Frame)
        → is_valid_content content ≡ true
        → files.stat file ≡ ok info
        → info.is_dir ≡ false
        → files.open_file file ≡ ok bytes
        → info.size ≡ length bytes
        → frame_of multi (placed_args content file extra).1 (placed_args content file extra).0
          ≡ ok frame
        → env.request_error (codes "POST") (full_url s.client (storage_path p (codes "/upload")))
          ≡ none
        → length (whole frame bytes) < two63
        → Ends
            (upload env multi files p content file extra s)
            (Posted (full_url s.client (storage_path p (codes "/upload"))) (whole frame bytes) s)
          × (lookup (codes "filename") (placed_args content file extra).1 ≡ none)
          × (lookup (codes "content") extra ≡ none
              → lookup (codes "content") (placed_args content file extra).1 ≡ some content)
    unfolding upload lookup text_eq
    upload-Posted content file extra info bytes frame valid there plain_file opened size framed good
          small =
        let placed = placed_args content file extra in
        let start : Map Text = (codes "content", content) ∷ [] in
        let url : Text = full_url s.client (storage_path p (codes "/upload")) in
        (
          simp (valid, there, plain_file, opened, size)
              (Ends-lift
                (upload_reader env multi (storage_path p (codes "/upload")) placed.1 placed.0 bytes
                  (length bytes))
                task_of s (Posted url (whole frame bytes) s (ok tt))
                (reader-Posted (storage_path p (codes "/upload")) placed.1 placed.0 bytes frame
                  framed good small)),
          place_args-keeps (codes "filename") extra (files.base file) start tt,
          λ h. place_args-keeps (codes "content") extra (files.base file) start h,
        )
