-- ===== src/Metadata.antt =====
-- src/metadataservice: the service that answers the machines behind a router, and its deployment.
pub mod Deployment
pub mod Networking
pub mod Backend
pub mod Proxy
pub mod Service
