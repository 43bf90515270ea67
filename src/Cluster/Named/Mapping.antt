-- ===== src/Cluster/Named/Mapping.antt =====
-- cluster_mapping.go: directories, PCI and USB devices under a cluster-wide id.
use go_proxmox.Prelude.{ℕ, Option}
use go_proxmox.Prelude.Text.{Text, codes}
use go_proxmox.Json.{Json}
use go_proxmox.World.{Env}
use go_proxmox.Client.{Action}
use go_proxmox.Containers.Calls.{Values, read}
use go_proxmox.Cluster.Named.{
  TextFields, read_named, create_named, update_named, delete_named, with_query,
}

module _ (env : Env) (calls : ℕ) (lib : Values) (fields : TextFields lib) where
  unfoldable pub mappings : Action lib.Value
  unfolding read
  mappings = read env calls lib (codes "/cluster/mapping") (codes "ClusterMappings")

  unfoldable pub dir_mappings : Text → Action lib.Value
  unfolding read
  dir_mappings check_node =
      read env calls lib
        (with_query env calls lib fields (codes "/cluster/mapping/dir") (codes "check-node")
          check_node)
        (codes "ClusterDirMappings")

  unfoldable pub dir_mapping : Text → Action lib.Value
  unfolding read_named
  dir_mapping =
      read_named env calls lib fields (codes "dir mapping id can not be empty")
        (codes "ClusterDirMapping") (codes "ID") (codes "/cluster/mapping/dir/")

  unfoldable pub new_dir_mapping : Option lib.Value → Action (Option Json)
  unfolding create_named
  new_dir_mapping =
      create_named env calls lib fields (codes "dir mapping id can not be empty") (codes "ID")
        (codes "/cluster/mapping/dir")

  unfoldable pub update_dir_mapping : Text → Option lib.Value → Action (Option Json)
  unfolding update_named
  update_dir_mapping =
      update_named env calls lib fields (codes "dir mapping id can not be empty")
        (codes "ClusterDirMappingOptions") (codes "/cluster/mapping/dir/")

  unfoldable pub delete_dir_mapping : Text → Action (Option Json)
  unfolding delete_named
  delete_dir_mapping =
      delete_named env calls lib fields (codes "dir mapping id can not be empty")
        (codes "/cluster/mapping/dir/")

  unfoldable pub pci_mappings : Text → Action lib.Value
  unfolding read
  pci_mappings check_node =
      read env calls lib
        (with_query env calls lib fields (codes "/cluster/mapping/pci") (codes "check-node")
          check_node)
        (codes "ClusterPCIMappings")

  unfoldable pub pci_mapping : Text → Action lib.Value
  unfolding read_named
  pci_mapping =
      read_named env calls lib fields (codes "pci mapping id can not be empty")
        (codes "ClusterPCIMapping") (codes "ID") (codes "/cluster/mapping/pci/")

  unfoldable pub new_pci_mapping : Option lib.Value → Action (Option Json)
  unfolding create_named
  new_pci_mapping =
      create_named env calls lib fields (codes "pci mapping id can not be empty") (codes "ID")
        (codes "/cluster/mapping/pci")

  unfoldable pub update_pci_mapping : Text → Option lib.Value → Action (Option Json)
  unfolding update_named
  update_pci_mapping =
      update_named env calls lib fields (codes "pci mapping id can not be empty")
        (codes "ClusterPCIMappingOptions") (codes "/cluster/mapping/pci/")

  unfoldable pub delete_pci_mapping : Text → Action (Option Json)
  unfolding delete_named
  delete_pci_mapping =
      delete_named env calls lib fields (codes "pci mapping id can not be empty")
        (codes "/cluster/mapping/pci/")

  unfoldable pub usb_mappings : Text → Action lib.Value
  unfolding read
  usb_mappings check_node =
      read env calls lib
        (with_query env calls lib fields (codes "/cluster/mapping/usb") (codes "check-node")
          check_node)
        (codes "ClusterUSBMappings")

  unfoldable pub usb_mapping : Text → Action lib.Value
  unfolding read_named
  usb_mapping =
      read_named env calls lib fields (codes "usb mapping id can not be empty")
        (codes "ClusterUSBMapping") (codes "ID") (codes "/cluster/mapping/usb/")

  unfoldable pub new_usb_mapping : Option lib.Value → Action (Option Json)
  unfolding create_named
  new_usb_mapping =
      create_named env calls lib fields (codes "usb mapping id can not be empty") (codes "ID")
        (codes "/cluster/mapping/usb")

  unfoldable pub update_usb_mapping : Text → Option lib.Value → Action (Option Json)
  unfolding update_named
  update_usb_mapping =
      update_named env calls lib fields (codes "usb mapping id can not be empty")
        (codes "ClusterUSBMappingOptions") (codes "/cluster/mapping/usb/")

  unfoldable pub delete_usb_mapping : Text → Action (Option Json)
  unfolding delete_named
  delete_usb_mapping =
      delete_named env calls lib fields (codes "usb mapping id can not be empty")
        (codes "/cluster/mapping/usb/")
