-- ===== src/DeviceTypes.antt =====
-- packages/core/src/matterbridgeDeviceTypes.ts: the record of a device type. The modules below have the
-- device types, one file for a chapter or two of the Matter device library.
pub mod Basic
pub mod Lighting
pub mod Outlets
pub mod Switches
pub mod Sensors
pub mod Entry
pub mod Climate
pub mod Media
pub mod Generic
pub mod Household
pub mod Energy
pub mod Cameras
pub mod Supported
pub mod Search
pub mod Lookup
use Prim.Native.String.{String}
use matterbridge.Base.{ℕ, List, []}
use matterbridge.Clusters.{ClusterType}

pub data DeviceClasses : Type 0 where
  node app utility simple dynamic composed client server duplicate : DeviceClasses
  bridged_power_source_info : DeviceClasses

pub data DeviceScopes : Type 0 where
  endpoint node : DeviceScopes

-- The device types that must be present and those that compose one are given by their codes.
pub record DeviceTypeDefinition : Type 0 where
  pub name : String
  pub code : ℕ
  pub device_class : DeviceClasses
  pub device_scope : DeviceScopes
  pub revision : ℕ
  pub required_server_clusters : List ClusterType
  pub optional_server_clusters : List ClusterType
  pub required_client_clusters : List ClusterType
  pub optional_client_clusters : List ClusterType
  pub required_device_types : List ℕ
  pub required_server_clusters_one_of : List ClusterType
  pub composed_of : List ℕ

-- A device type whose lists have their default, the empty list; a definition of the source sets some.
abbrev pub device_type_definition :
    String → ℕ → DeviceClasses → DeviceScopes → ℕ → DeviceTypeDefinition
device_type_definition name code device_class device_scope revision = record {
  name = name;
  code = code;
  device_class = device_class;
  device_scope = device_scope;
  revision = revision;
  required_server_clusters = [];
  optional_server_clusters = [];
  required_client_clusters = [];
  optional_client_clusters = [];
  required_device_types = [];
  required_server_clusters_one_of = [];
  composed_of = [];
}
