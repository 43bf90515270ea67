-- ===== src/Containers/Tests.antt =====
-- Runs of the laws on containers.
use go_proxmox.Prelude.{refl, Bool, none, some, List, [], ◌∷◌, ◌++◌, any, arith, true}
use go_proxmox.Prelude.Text.{Text, codes, text_eq, split}
use go_proxmox.Errors.{ok}
use go_proxmox.Json.{Json}
use go_proxmox.Client.Ends.{Ends}
use go_proxmox.Tasks.Sample.{task_env, task_env-IsAccepting, task_env-IsClock, start_state}
use go_proxmox.Vm.{ensure_split, split_tags}
use go_proxmox.Vm.Tags.{has_tag-any}
use go_proxmox.Containers.{Container, ContainerConfig}
use go_proxmox.Containers.Tags.{
  Edit, add, remove, edited_all, Represents, Represented, edit_all, edit_all-Represents,
}
use go_proxmox.Containers.Calls.{Values}

abbrev two_tags : ContainerConfig
two_tags = record { tags = codes "prod;web"; tags_slice = none }

abbrev container : Container
container = record {
  config = some two_tags;
  node = codes "pve1";
  vmid = 101;
  tags = codes "prod;web";
}

abbrev prod_and_web : Text → Bool
prod_and_web x = any (λ t. text_eq t x) (codes "prod" ∷ codes "web" ∷ [])

container-Represents : Represents prod_and_web container
unfolding ensure_split split_tags split text_eq
container-Represents = record {
  config = two_tags;
  configured = refl;
  copied = refl;
  tag_set = record {
    coherent = tt;
    distinct = ((λ e. absurd (cc), tt), (tt, tt));
    tests = λ x n.
        has_tag-any (record { tags = codes "prod;web"; tags_slice = none; boot = [] }) x tt n;
  };
}

abbrev three_edits : List Edit
three_edits = add (codes "eu") ∷ remove (codes "prod") ∷ add (codes "web") ∷ []

edit_all-Represents_example :
    Ends
      (edit_all task_env 1 three_edits container start_state)
      (Represented (edited_all prod_and_web three_edits))
edit_all-Represents_example =
    edit_all-Represents task_env task_env-IsAccepting task_env-IsClock 0 three_edits prod_and_web
      container start_state (ground arith) container-Represents

abbrev with_query : Text → Text → Text
with_query path [] = path
with_query path (c ∷ query) = path ++ (63 ∷ (c ∷ query))

-- Values are JSON, and a path takes its query as it is.
abbrev json_values : Values
json_values = record {
  Value = Json;
  decode = λ type j. ok j;
  zero_value = λ type. Json.null;
  encode = λ j. j;
  names = λ j. [];
  feature = λ j. true;
  url_string = with_query;
  query = λ params. [];
}
