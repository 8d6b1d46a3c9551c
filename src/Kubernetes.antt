-- ===== src/Kubernetes.antt =====
-- pkg/kubernetes: the model profiles, the cluster's objects and the pod that runs vLLM.
pub mod Models
pub mod Config
pub mod Args
pub mod Pod
pub mod Api
pub mod Crd
pub mod Watch
pub mod Manager
