-- ===== src/Upload.antt =====
-- proxmox.go's `Upload` and `UploadReader`, and storage.go's uploads and downloads. The writer of
-- package mime/multipart and the files are parameters.
pub mod Sends
use go_proxmox.Prelude.{
  ℕ, ◌+◌, Bool, true, false, Option, none, some, List, [], ◌∷◌, ◌++◌, if◌then◌else◌, length, any,
}
use go_proxmox.Prelude.Text.{Text, codes, text_eq, join}
use go_proxmox.Prelude.Int.{ℤ, pos, wrap64}
use go_proxmox.Prelude.Map.{Map, insert, insert_all}
use go_proxmox.Errors.{Error, message, Result, ok, err}
use go_proxmox.Json.{Json, Members}
use go_proxmox.World.{Request, Env}
use go_proxmox.Client.{Client, Action, State, ◌>>=◌, ◌>>◌, pure, raise, lift, gets}
use go_proxmox.Client.Response.{handle_response}
use go_proxmox.Session.{full_url, auth_headers, run_interceptors, send}
use go_proxmox.Session.Req.{post, delete}
use go_proxmox.Tasks.{Task, ◌>=>◌}
use go_proxmox.Vm.{task_of}

-- `*multipart.Writer`: each call gives the bytes that it appends to the buffer. `length_error` is
-- net/http's refusal of a request by its `ContentLength` and the length of its body; `ordered` puts
-- the fields into the order in which Go happens to range over their map.
pub record Multipart : Type 1 where
  pub Writer : Type 0
  pub writer : Writer
  pub write_field : Text → Text → Writer → Result (Text × Writer)
  pub create_form_file : Text → Text → Writer → Result (Text × Writer)
  pub close : Writer → Result Text
  pub content_type : Writer → Text
  pub length_error : ℤ → ℕ → Option Error
  pub ordered : Map Text → Map Text

-- `os.Stat`, `os.Open` with what is read from the file, and `filepath.Base`.
pub record FileInfo : Type 0 where
  pub is_dir : Bool
  pub size : ℕ

pub record Files : Type 0 where
  pub stat : Text → Result FileInfo
  pub open_file : Text → Result Text
  pub base : Text → Text

-- What the buffer holds before and after the place of the content.
pub record Frame : Type 0 where
  pub header : Text
  pub trailer : Text
  pub form_type : Text

module _ (multi : Multipart) where
  open multi use {Writer, writer, write_field, create_form_file, close, content_type, ordered}

  -- The loop over the fields, in the order that Go gives them.
  unfoldable pub write_fields : Map Text → Text × Writer → Result (Text × Writer)
  write_fields [] b = ok b
  write_fields ((name, val) ∷ fields) b =
      write_field name val b.1 >=> λ w. write_fields fields (b.0 ++ w.0, w.1)

  -- `UploadReader` up to the request.
  unfoldable pub frame_of : Map Text → Text → Result Frame
  unfolding write_fields
  frame_of fields filename = write_fields (ordered fields) ([], writer) >=> λ b.
      create_form_file (codes "filename") filename b.1 >=> λ w. close w.1 >=> λ trailer.
      ok (record { header = b.0 ++ w.0; trailer = trailer; form_type = content_type w.1 })

-- The request before the interceptors, and its `ContentLength`.
unfoldable pub upload_request : Client → Text → Frame → Text → Request
unfolding auth_headers
upload_request c url frame content = record {
  method = codes "POST";
  url = url;
  headers = auth_headers c ((codes "Content-Type", frame.form_type) ∷ []);
  body = some (frame.header ++ (content ++ frame.trailer));
}

unfoldable pub content_length : Frame → ℕ → ℤ
content_length frame size = wrap64 (pos (length (frame.header ++ frame.trailer) + size))

module _ (env : Env) (multi : Multipart) where
  abbrev length_of : Option Text → ℕ
  length_of none = 0
  length_of (some b) = length b

  abbrev unless : Option Error → Result (Unit {0})
  unless none = ok tt
  unless (some e) = err e

  -- `UploadReader`, of a reader and its size. It does not log in again, nor try a second time.
  unfoldable pub upload_reader : Text → Map Text → Text → Text → ℕ → Action (Option Json)
  unfolding frame_of upload_request content_length run_interceptors send
  upload_reader path fields filename content size = do
    url ← gets (λ s. full_url s.client path)
    frame ← lift (frame_of multi fields filename)
    lift (unless (env.request_error (codes "POST") url))
    c ← gets (λ s. s.client)
    r ← lift (run_interceptors c.interceptors (upload_request c url frame content))
    lift (unless (multi.length_error (content_length frame size) (length_of r.body)))
    res ← send env r
    lift (handle_response env res true)

  -- `Upload`, of an open file with this name.
  unfoldable pub upload_file : Files → Text → Map Text → Text → Text → Action (Option Json)
  unfolding upload_reader
  upload_file files path fields file content = lift (files.stat file) >>= λ info.
      upload_reader path fields (files.base file) content info.size

valid_contents : List Text
valid_contents = codes "iso" ∷ codes "vztmpl" ∷ codes "import" ∷ []

-- The test of `validContent`.
unfoldable pub is_valid_content : Text → Bool
unfolding valid_contents text_eq
is_valid_content content = any (λ k. text_eq k content) valid_contents

-- `validContentError`; Go's order of the keys varies.
unfoldable pub valid_content_error : Error
unfolding valid_contents join
valid_content_error =
    message (codes "invalid content type, allowed: " ++ join (codes ", ") valid_contents)

-- The loop over the extra arguments: the file's name is none of the fields.
unfoldable pub place_args : Map Text → Text → Map Text → Text × Map Text
place_args [] filename fields = (filename, fields)
place_args ((k, v) ∷ extra) filename fields =
    if text_eq k (codes "filename")
    then place_args extra v fields
    else place_args extra filename (insert k v fields)

-- A storage of a node.
pub record Place : Type 0 where
  pub node : Text
  pub storage : Text

abbrev pub storage_path : Place → Text → Text
storage_path p suffix = codes "/nodes/" ++ (p.node ++ (codes "/storage/" ++ (p.storage ++ suffix)))

module _ (env : Env) (multi : Multipart) (files : Files) (p : Place) where
  abbrev send_file : Text → ℕ → Text × Map Text → Action (Option Task)
  send_file content size placed =
      upload_reader env multi (storage_path p (codes "/upload")) placed.1 placed.0 content size
      >>= λ a. lift (task_of a)

  -- `upload`, without extra arguments where there are none.
  unfoldable pub upload : Text → Text → Map Text → Action (Option Task)
  unfolding upload_reader is_valid_content place_args
  upload content file extra =
      if is_valid_content content
      then (lift (files.stat file) >>= λ info.
          if info.is_dir
          then raise (message (codes "file is a directory " ++ file))
          else (lift (files.open_file file) >>= λ bytes.
              send_file bytes info.size
                (place_args extra (files.base file) ((codes "content", content) ∷ []))))
      else raise valid_content_error

  -- `Upload`, `UploadWithName` and `UploadWithHash`.
  unfoldable pub storage_upload : Text → Text → Action (Option Task)
  unfolding upload
  storage_upload content file = upload content file []

  unfoldable pub upload_with_name : Text → Text → Text → Action (Option Task)
  unfolding upload
  upload_with_name content file name = upload content file ((codes "filename", name) ∷ [])

  abbrev named_as : Option Text → Map Text → Map Text
  named_as none extra = extra
  named_as (some n) extra = insert (codes "filename") n extra

  unfoldable pub upload_with_hash : Text → Text → Option Text → Text → Text → Action (Option Task)
  unfolding upload
  upload_with_hash content file name checksum algorithm =
      upload content file (
        named_as name ((codes "checksum", checksum) ∷ (codes "checksum-algorithm", algorithm) ∷ []))

  -- `UploadString`.
  unfoldable pub upload_string : Text → Text → Text → Action (Option Task)
  unfolding is_valid_content
  upload_string content filename contents =
      if is_valid_content content
      then send_file contents (length contents) (filename, (codes "content", content) ∷ [])
      else raise valid_content_error

-- `DownloadURL` and `DownloadURLWithHash`.
abbrev members_of : Map Text → Members
members_of [] = Members.end
members_of ((k, v) ∷ m) = Members.member k (Json.string v) (members_of m)

module _ (env : Env) (calls : ℕ) (p : Place) where
  unfoldable pub download : Text → Text → Text → Map Text → Action (Option Task)
  unfolding is_valid_content insert_all
  download content filename url extra =
      if is_valid_content content
      then (post env calls (storage_path p (codes "/download-url"))
            (some (
              Json.object (
                members_of (
                  insert_all extra (
                    (codes "content", content)
                    ∷ (codes "filename", filename)
                    ∷ (codes "url", url)
                    ∷ [])))))
            true
          >>= λ a. lift (task_of a))
      else raise valid_content_error

  unfoldable pub download_url : Text → Text → Text → Action (Option Task)
  unfolding download
  download_url content filename url = download content filename url []

  unfoldable pub download_url_with_hash : Text → Text → Text → Text → Text → Action (Option Task)
  unfolding download
  download_url_with_hash content filename url checksum algorithm =
      download content filename url
        ((codes "checksum", checksum) ∷ (codes "checksum-algorithm", algorithm) ∷ [])

  -- `DeleteContent`.
  unfoldable pub delete_content : Text → Action (Option Task)
  delete_content content =
      delete env calls (storage_path p (codes "/content/" ++ content)) true >>= λ a.
      lift (task_of a)
