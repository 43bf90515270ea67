-- ===== src/Upload/Sends/Tests.antt =====
-- Runs of the law on uploads.
use go_proxmox.Prelude.{◌≡◌, refl, false, none, some, [], ◌∷◌, ◌++◌, arith, if◌then◌else◌}
use go_proxmox.Prelude.Text.{Text, codes, text_eq, has_prefix}
use go_proxmox.Prelude.Int.{pos, eq_ℤ}
use go_proxmox.Prelude.Map.{Map, lookup, insert}
use go_proxmox.Errors.{message, ok}
use go_proxmox.Client.Ends.{Ends}
use go_proxmox.Session.Sample.{strict_env, with_password, site}
use go_proxmox.Upload.{
  Multipart, Files, Frame, Place, frame_of, write_fields, place_args, is_valid_content,
  valid_contents, storage_path, upload,
}
use go_proxmox.Upload.Sends.{Posted, whole, placed_args, upload-Posted}

-- A writer whose parts are lines.
abbrev lines : Multipart
lines = record {
  Writer = Unit {0};
  writer = tt;
  write_field = λ name val w. ok (name ++ (codes "=" ++ (val ++ codes "\n")), tt);
  create_form_file = λ field name w. ok (name ++ codes ":", tt);
  close = λ w. ok (codes "--");
  content_type = λ w. codes "multipart/form-data";
  ordered = λ fields. fields;
  length_error =
      λ n m. if eq_ℤ n (pos m) then none else some (message (codes "http: ContentLength"));
}

abbrev one_file : Files
one_file = record {
  stat = λ f. ok (record { is_dir = false; size = 3 });
  open_file = λ f. ok (codes "abc");
  base = λ f. codes "a.iso";
}

abbrev local : Place
local = record { node = codes "pve1"; storage = codes "local" }

abbrev name_arg : Map Text
name_arg = (codes "filename", codes "b.iso") ∷ []

abbrev iso_frame : Frame
iso_frame = record {
  header = codes "content=iso\nb.iso:";
  trailer = codes "--";
  form_type = codes "multipart/form-data";
}

upload_example :
    Ends
      (upload strict_env lines one_file local
        (codes "iso")
        (codes "/tmp/a.iso")
        name_arg
        with_password)
      (Posted strict_env lines one_file local
        (site ++ storage_path local (codes "/upload"))
        (whole strict_env lines one_file local iso_frame (codes "abc"))
        with_password)
    × (lookup
          (codes "filename")
          (placed_args strict_env lines one_file local
            (codes "iso")
            (codes "/tmp/a.iso")
            name_arg).1
        ≡ none)
    × (lookup (codes "content") name_arg ≡ none
        → lookup
            (codes "content")
            (placed_args strict_env lines one_file local
              (codes "iso")
              (codes "/tmp/a.iso")
              name_arg).1
          ≡ some (codes "iso"))
unfolding frame_of place_args is_valid_content valid_contents text_eq has_prefix insert write_fields
upload_example =
    upload-Posted strict_env lines one_file local (λ n. ground arith) with_password refl
      (codes "iso") (codes "/tmp/a.iso") name_arg (record { is_dir = false; size = 3 })
      (codes "abc") iso_frame refl refl refl refl refl refl refl (omega arith)
