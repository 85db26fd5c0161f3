-- ===== src/Rules.antt =====
-- internal/diagnosis/rules: the rule sets, one module for each kind of resource.
pub mod Pod
pub mod Deployment
pub mod Ingress
pub mod Pvc
pub mod Service
pub mod StatefulSet
pub mod Texts
