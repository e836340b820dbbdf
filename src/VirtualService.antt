-- ===== src/VirtualService.antt =====
-- internal/handler/trafficconfig/virtual_service.go: the virtual services of an application. Rules
-- has the types and the rules of one route, Dials the weights of the target groups, Build the whole
-- object, and Apply its way to the clusters of the dependents.
pub mod Rules
pub mod Dials
pub mod Build
pub mod Apply
pub mod Hosts
pub mod Targets
