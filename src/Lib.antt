-- ===== src/Lib.antt =====
-- Matterbridge: the parts of the bridge that decide, without its sockets, storage and matter.js.
--
-- The program is a bridge between plugins and Matter. The plugin manager keeps the plugins and
-- their copy in the storage, answers the messages of other threads about them, and loads, starts,
-- configures and shuts them down (Plugins, packages/core/src/pluginManager.ts). Each plugin has a
-- platform, which keeps the devices that the plugin registers, the numbers of their endpoints and
-- the lists of devices and entities to choose from (Platforms,
-- packages/core/src/matterbridgePlatform.ts), and selects by the lists of the plugin's
-- configuration (Selection, the same file). A device is an endpoint, which gets the cluster servers
-- and clients of its device types, has child endpoints, and is read and written by attribute
-- (Endpoints, packages/core/src/matterbridgeEndpoint.ts and matterbridgeEndpointHelpers.ts). The
-- device types are tables over the names of clusters (DeviceTypes and Clusters,
-- packages/core/src/matterbridgeDeviceTypes.ts). The values of attributes are copied and compared
-- (Values, packages/utils/src/deepCopy.ts, deepEqual.ts and validate.ts). The bridge keeps all
-- devices in the device manager (Devices, packages/core/src/deviceManager.ts).
--
-- The threads of the program are started and watched by their manager (Threads,
-- packages/thread/src/threadsManager.ts) and exchange messages through broadcast servers
-- (Broadcast, packages/thread/src/broadcastServer.ts), which the managers of devices and plugins
-- answer. A command of a Matter controller reaches the server of its cluster (Appliances,
-- packages/core/src/devices and packages/core/src/behaviors), which calls the handler that a plugin
-- registered (Commands, packages/core/src/matterbridgeEndpointCommandHandler.ts) and then updates
-- the attributes. A tracker samples the load of the process (Tracker,
-- packages/utils/src/tracker.ts). Devices on the network are found by multicast datagrams, which
-- two codecs read and write (Coap and Mdns, packages/dgram/src/coap.ts and mdns.ts). Hex has the
-- conversions of packages/utils/src/hex.ts.
--
-- A module has the definitions of its part under the names of the source, in its spelling:
-- decodeCoapMessage is decode_coap_message, and the methods of a class are functions that take its
-- state first and return the new one. The modules below it have the proofs, named for what they
-- prove, and the tests on concrete values. Base has what they share: bytes and buffers, texts,
-- results, and the Map of the language, whose entries keep their order.
--
-- Conventions. A text is the list of its code units, a buffer the list of its bytes, undefined and
-- null are none, and a thrown error is err of a Result. Numbers are natural; where the source
-- subtracts, the difference is not negative there or the model says what happens. The fields that
-- the codecs write have their width: writing a number that does not fit is an error, and the masks
-- and shifts are those of the source. A value of JavaScript is a tree, in Values: an object shows
-- the fields it has, and a date or a regular expression its kind.
--
-- Loops. The loops of the decoders are recursions on fuel: the option loop of Coap gets the length
-- of the datagram, as it starts after the header and every round but the last reads a byte; the
-- label loop of Mdns has the bound of 1000 rounds that the source has; the loop over the texts of a
-- TXT record gets one more than the length of the record, as every round reads its length byte.
-- Running out is an error of its own.
--
-- Parameters. The code of plugins is a parameter: Appliances takes the handler of a device as any
-- function of the attributes that may change them or throw, and a theorem that needs more of it
-- says so. So is what matter.js does: adding a cluster server or a child to an endpoint, setting
-- the state of a behavior, and the names of the clusters; that setting the state stores a value
-- that is not an object is a named hypothesis where it is used. Whether the bridge takes a device,
-- whether a worker can be made, and what loading does to an installed plugin are arguments. The
-- hash of an endpoint id, the files that exist, clock, random ids and the readings of the system
-- are too.
--
-- Left out: logs and the text that is only logged, the sockets, processes and files, what matter.js
-- does with an endpoint, the default values of its servers, and the web server with its
-- application. The text that the mDNS decoder renders of a record is left out; the values it
-- renders are kept. Of the plugin manager, installing, the configuration files and the schemas are
-- left out. Calls that overlap while one of them waits are left out, but for the registration of a
-- device, which is two steps, and the events of workers and messages, which come in any order.
pub mod Appliances
pub mod Base
pub mod Broadcast
pub mod Clusters
pub mod Coap
pub mod Commands
pub mod DeviceTypes
pub mod Devices
pub mod Endpoints
pub mod Hex
pub mod Mdns
pub mod Platforms
pub mod Plugins
pub mod Selection
pub mod Threads
pub mod Tracker
pub mod Values
